-- ===== src/Examples/Server.antt =====
-- A connection to a broker.
use dsend.Base.{
  true, false, Option, none, some, List, [], ◌∷◌, ◌≡◌, ◌≢◌, refl, sym, subst, inr, lookup, insert,
  All,
}
use mathlib.Core.List.Permᴰ.{refl as Permᴰ-refl}
use dsend.Model.{Record}
use dsend.Protocol.{Request, zero_request}
use dsend.Engine.{Error, err_wal_append, err_queue_not_found, err_invalid_binding_key}
use dsend.Engine.QueueRuntime.{QueueRuntime, set_token_hooks, new_queue_runtime}
use dsend.Engine.QueueRuntime as Runtime
use dsend.Engine.Broker.{put_queue, new_runtime, new_in_memory_broker, log_then}
use dsend.Engine.Broker.Names.{
  validate_binding_key, validate_exchange_name, validate_exchange_type, validate_queue_name,
}
use dsend.Exchange.{new_exchange_factory, bind, check_binding_exists}
use dsend.Engine.Broker.Queues.{create_queue, delete_queue, queue_added}
use dsend.Engine.Broker.Exchanges.{bind_queue, unbind_queue, create_exchange, rebind}
use dsend.Engine.Broker.Startup.{with_queues, with_default_queue, restore_queues}
use dsend.Engine.Broker.Messages.{queue, unsubscribe}
use dsend.Engine.Broker.Sound.{Sound}
use dsend.Server.{
  forwarder, Connection, Surroundings, Served, new_connection, returned, leave, stop_subscription,
}
use dsend.Server.Handler.{handle_request, handle_round, handle_subscribe}
use dsend.Server.Deliveries.{forward}
use dsend.Server.Answers.{IsOrderly}
use dsend.Server.Steps.{Step, Reach, here, next, handles, forwards, serve-Sound, serve-IsOrderly}
use dsend.Server.Conns as Conns
use dsend.Server.Conns.{
  Server, new_server, IsDone, accepts, tracks, checks, cancels, unlistens, sweeps, shutdown-Closes,
}
use dsend.Server.Left.{queue-put, handle_round-Ended}
use dsend.Server.Taken.{subscribed, subscribe-Taken}
use dsend.Examples.{list_wal, list_wal-IsWal, small_config, alice}
use dsend.Examples.Broker.{Run, binding}
use dsend.Examples.Publishing.{tick, ticks_differ, hello, nothing_used, bound-Sound}

abbrev pub calm : Surroundings
calm = record {
  fresh = tick;
  clock = λ i. i;
  order = λ names. names;
  address = 2;
  written = true;
  append_text = "disk full";
}

abbrev publishing_hello : Request
publishing_hello = record zero_request {
  type = "publish";
  exchange = "news";
  routing_key = "orders.paid";
  payload = hello;
}

differs :
    {o : Option Error} (err : Option Error)
    → o ≡ err
    → err ≢ some err_wal_append
    → o ≢ some err_wal_append
differs err e h = subst (λ err. err ≢ some err_wal_append) (sym e) h

undeleted : (delete_queue binding.0 "" (λ names. names)).1 ≡ some err_queue_not_found
unfolding delete_queue with_queues new_in_memory_broker with_default_queue restore_queues lookup
    insert create_queue create_exchange bind_queue rebind bind check_binding_exists log_then
    list_wal queue_added new_exchange_factory validate_binding_key validate_exchange_name
    validate_exchange_type validate_queue_name
undeleted = refl

unbound : (bind_queue binding.0 "news" "" "").1 ≡ some err_invalid_binding_key
unfolding bind_queue validate_binding_key
unbound = refl

bound_still : (unbind_queue binding.0 "news" "" "").1 ≡ some err_queue_not_found
unfolding unbind_queue with_queues new_in_memory_broker with_default_queue restore_queues lookup
    insert create_queue create_exchange bind_queue rebind bind check_binding_exists log_then
    list_wal queue_added new_exchange_factory validate_binding_key validate_exchange_name
    validate_exchange_type validate_queue_name
bound_still = refl

says_hello :
    Step list_wal-IsWal
      (binding.0, new_connection)
      (handle_request calm (binding.0, new_connection) publishing_hello)
says_hello =
    handles binding.0 new_connection calm publishing_hello refl (λ e. cc e)
      (record {
        unnamed = refl;
        distinct = ticks_differ;
        unused = nothing_used;
        shuffles = Permᴰ-refl;
        deletes = differs _ undeleted (λ e. cc e);
        binds = differs _ unbound (λ e. cc e);
        unbinds = differs _ bound_still (λ e. cc e);
      })

abbrev answered : Served (List Record)
answered = handle_request calm (binding.0, new_connection) publishing_hello

served : Reach list_wal-IsWal (binding.0, new_connection) (forward true (answered.0, answered.1))
served = next (next here says_hello) (forwards answered.0 answered.1 true)

serve-Sound_example : Sound list_wal-IsWal (forward true (answered.0, answered.1)).0
serve-Sound_example = serve-Sound list_wal-IsWal bound-Sound served

serve-IsOrderly_example : IsOrderly (forward true (answered.0, answered.1)).1
serve-IsOrderly_example =
    serve-IsOrderly list_wal-IsWal (record { responses = tt; stopped = λ e. cc }) served

-- A broker whose queue `orders` has a session of alice.
abbrev orders : QueueRuntime
orders = record (new_runtime small_config "orders" []) { consumer_sessions = ("alice", alice) ∷ [] }

abbrev pub attended : Run
attended = put_queue binding.0 "orders" orders

pub attended_queue : queue attended "orders" ≡ inr orders
unfolding queue with_queues new_in_memory_broker with_default_queue restore_queues lookup insert
    create_queue create_exchange bind_queue rebind bind check_binding_exists log_then list_wal
    queue_added new_exchange_factory validate_binding_key validate_exchange_name
    validate_exchange_type validate_queue_name
attended_queue = refl

abbrev forwarding : Connection
forwarding = record new_connection { subscription = some (forwarder "orders" "alice" 1) }

orders_left :
    queue (handle_round calm (attended, forwarding) none).0 "orders"
    ≡ inr (Runtime.unsubscribe orders "alice")
unfolding handle_round leave stop_subscription unsubscribe
orders_left = rw (attended_queue, unsubscribe) (queue-put attended "orders" orders _ attended_queue)

returned_then : (handle_round calm (attended, forwarding) none).1.stage ≡ returned
unfolding handle_round leave
returned_then = refl

handle_round-Ended_example :
    lookup "alice" (Runtime.unsubscribe orders "alice").consumer_sessions ≡ none
handle_round-Ended_example =
    handle_round-Ended calm forwarding (forwarder "orders" "alice" 1) (refl, refl) refl attended
      none (Runtime.unsubscribe orders "alice") returned_then orders_left

orders_open : orders.closed ≡ false
unfolding new_runtime set_token_hooks new_queue_runtime
orders_open = refl

abbrev as_alice : Request
as_alice = record zero_request { type = "subscribe"; queue = "orders"; id = "alice" }

alice_known : lookup "alice" orders.consumer_sessions ≡ some alice
unfolding lookup
alice_known = refl

subscribe-Taken_example :
    let s = handle_subscribe calm (attended, new_connection) as_alice in
    (s ≡ (put_queue attended "orders" orders, subscribed new_connection as_alice 2))
    × ((forward true s).1 ≡ s.1)
    × ((q : QueueRuntime) × (queue (leave s).0 "orders" ≡ inr q)
        × (lookup "alice" q.consumer_sessions ≡ none))
subscribe-Taken_example =
    subscribe-Taken calm attended new_connection as_alice orders alice refl attended_queue
      orders_open alice_known (λ e. cc e) true

run_of_server : Conns.Reach new_server (record {
  conns = record { address = 7; is_closed = true; handled = true } ∷ [];
  turned_away = [];
  stage = Conns.accepting;
  listening = false;
  cancelled = true;
  swept = true;
})
unfolding Conns.track_conn Conns.check_conn Conns.close_conns
run_of_server =
    Conns.next
      (Conns.next
        (Conns.next
          (Conns.next
            (Conns.next (Conns.next Conns.here (accepts new_server 7 refl refl tt))
              (tracks _ 7 refl))
            (checks _ 7 refl))
          (cancels _))
        (unlistens _ refl))
      (sweeps _ refl refl)

shutdown-Closes_example :
    All (IsDone Conns.accepting) (record { address = 7; is_closed = true; handled = true } ∷ [])
shutdown-Closes_example = shutdown-Closes run_of_server refl
