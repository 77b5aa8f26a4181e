-- ===== src/Database/Examples.antt =====
-- Runs of the database on a store in memory, and its theorems at concrete inputs.
use go_gwiot.Prelude.{
  List, Bool, ◌++◌, ◌≡◌, refl, true, false, Option, none, some, [], ◌∷◌, ok, arith, ◌⊎◌, length,
  ◌≤◌,
}
use go_gwiot.Prelude.Bytes.{Bytes, bytes_eq, ascii, has_prefix, bytes_lt}
use go_gwiot.Database.Errors.{Error, failed, returned}
use go_gwiot.Database.Bolt.{collection}
use go_gwiot.Database.Bolt.Cursor.{for_loop}
use go_gwiot.Database.Repo
use go_gwiot.Database.Repo.{
  Turn, sent, timed_out, QueryType, prefixed, persist_data, get_data, remove_data,
  search_collections, query_data, last_data, walk,
}
use go_gwiot.Database.Repo.Ending.{query_data-ends}
use go_gwiot.Database.Repo.Ordered.{search_collections_reverse_misses}
use go_gwiot.Database.Fsm.{State, s_open, s_wait_event}
use go_gwiot.Database.Messages.{
  Msg, Place, started, opened_db, update_data, close_db, ack_persist_data, no_ack_persist_data,
  ack_get_data,
}
use go_gwiot.Database.Actor.{row_replies, close_state, wait_state, DbActor, World, receive, enter}
use go_gwiot.Database.Actor.Lifecycle.{
  System, handle, Reach, here, next, start, IsConsistent, Reach-IsConsistent,
}
use go_gwiot.Database.Actor.Stores.{Takes, reads_after, receive_store}
use go_gwiot.Database.Actor.Closing.{close_db_unanswered}
use go_gwiot.Database.Service
use go_gwiot.Database.Service.Query.{child_step, listed, Listed, query_rows, query_rows-listed}
use go_gwiot.Database.Service.Trips.{store_call, store_call-get}
use go_gwiot.Database.Memory.{
  shelf, Table, written, memory, memory_buckets, memory_cursors, memory_storage, memory_fsm,
}

abbrev blank : Table
blank = λ p k. none

abbrev one_record : Table
one_record = written blank (collection (ascii "d") (ascii "c")) (ascii "k") (some (ascii "v"))

persist_one :
    persist_data memory (returned []) (ascii "k") (ascii "v") (ascii "d") (ascii "c") false blank
    ≡ returned one_record
unfolding persist_data
persist_one = refl

remove_one :
    remove_data memory (ascii "k") (ascii "d") (ascii "c") one_record
    ≡ returned (written one_record (collection (ascii "d") (ascii "c")) (ascii "k") none)
unfolding remove_data
remove_one = refl

search_a :
    search_collections memory 4 [] (ascii "d") (ascii "a") false blank
    ≡ some (ascii "a1" ∷ ascii "a2" ∷ [])
unfolding search_collections walk for_loop bytes_lt has_prefix
search_a = refl

search_collections_reverse_misses_example :
    search_collections memory 4 [] (ascii "d") (ascii "a") true blank ≡ some []
unfolding has_prefix
search_collections_reverse_misses_example =
    search_collections_reverse_misses memory memory_cursors 4 (ascii "d") [] 97 blank
      ((ascii "a1", ascii "x") ∷ (ascii "a2", ascii "y") ∷ []) (ascii "b1", ascii "z") refl
      (omega arith) refl refl

query_data-ends_example :
    (rows : List QueryType) × (length rows ≤ length shelf)
    × (query_data memory 4 (λ i. timed_out) (ascii "d") (ascii "c") (ascii "a") true blank
        ≡ some rows)
    × (query_data memory 9 (λ i. timed_out) (ascii "d") (ascii "c") (ascii "a") true blank
        ≡ some rows)
query_data-ends_example =
    query_data-ends memory memory_cursors 4 9 (λ i. timed_out) (ascii "d") (ascii "c") (ascii "a")
      true blank (omega arith) (omega arith)

abbrev world : World Table
world = record {
  opened = some blank;
  fresh = returned (ascii "u");
  turns = λ i. sent;
  has_sender = true;
  fuel = 4;
  ack_first = false;
}

abbrev MemoryActor : Type 0
MemoryActor = DbActor Table

-- The actor after `actor.Started`, and after the announcement that this makes.
abbrev is_opening : MemoryActor
is_opening = record {
  fm = s_open;
  act = record {
    behavior = close_state;
    db = some blank;
    self_sent = opened_db ∷ [];
    replies = [];
  };
}

abbrev taking : MemoryActor
taking = record {
  fm = s_wait_event;
  act = record { behavior = wait_state; db = some blank; self_sent = []; replies = [] };
}

abbrev first_system : System memory_storage memory_fsm
first_system = record { actor = is_opening; mailbox = opened_db ∷ [] }

receive_started :
    receive memory_storage memory_fsm world started (start memory_storage memory_fsm).actor
    ≡ ok is_opening
unfolding receive enter start
receive_started = refl

first_reached : Reach memory_storage memory_fsm (start memory_storage memory_fsm) first_system
unfolding start
first_reached = next here (handle world started [] is_opening refl receive_started)

Reach-IsConsistent_example : IsConsistent memory_storage memory_fsm first_system
Reach-IsConsistent_example = Reach-IsConsistent memory_storage memory_fsm first_reached

abbrev searching : Msg
searching = Msg.search_collection (ascii "d") (ascii "a") true

-- A search waits behind the announcement.
abbrev second_system : System memory_storage memory_fsm
second_system = record { actor = taking; mailbox = searching ∷ [] }

abbrev place : Place
place = record { id = ascii "k"; database = ascii "d"; collection = ascii "c" }

abbrev stored : MemoryActor
stored = record taking {
  act = record {
    behavior = wait_state;
    db = some one_record;
    self_sent = [];
    replies = ack_persist_data place ∷ [];
  };
}

receive_update :
    receive memory_storage memory_fsm world (update_data place (ascii "v")) taking ≡ ok stored
unfolding receive persist_data
receive_update = refl

receive_store_example :
    (kept : Table) × (some one_record ≡ some kept)
    × ((ack_persist_data place ∷ [] ≡ ack_persist_data place ∷ [])
          × ((db coll id : Bytes)
              → Repo.is_blank id ≡ false
              → get_data memory [] id db coll kept
                ≡ reads_after memory_storage memory_fsm place (ascii "v") db coll id blank)
          × (true ≡ false → ◌≡◌ {A = Option Bytes} none none)
          × Takes memory_storage memory_fsm kept stored
        ⊎ ((e : Error) × (ack_persist_data place ∷ [] ≡ no_ack_persist_data [] ∷ [])
            × (kept ≡ blank)))
receive_store_example =
    receive_store memory_storage memory_fsm memory_buckets world place (ascii "v") true blank taking
      stored (record { fm = refl; db = refl; behavior = refl }) refl refl receive_update

abbrev closed : MemoryActor
closed = record {
  fm = State.s_close;
  act = record { behavior = close_state; db = none; self_sent = []; replies = [] };
}

receive_close : receive memory_storage memory_fsm world close_db taking ≡ ok closed
unfolding receive enter
receive_close = refl

close_db_unanswered_example : closed.act.replies ≡ []
close_db_unanswered_example =
    close_db_unanswered memory_storage memory_fsm world taking closed receive_close

abbrev found_replies : MemoryActor
found_replies = record stored {
  act = record stored.act { replies = ack_get_data (ascii "v") ∷ [] };
}

update_call :
    store_call memory_storage memory_fsm true world place (ascii "v") taking
    ≡ ok (stored, returned (ascii "k"))
unfolding Service.update Service.persist_result receive persist_data
update_call = refl

get_call :
    Service.get memory_storage memory_fsm world place stored
    ≡ ok (found_replies, returned (ascii "v"))
unfolding Service.get Service.get_result receive get_data bytes_eq
get_call = refl

store_call-get_example :
    (ascii "k" ≡ place.id)
    × (reads_after memory_storage memory_fsm place
          (ascii "v")
          (ascii "d")
          (ascii "c")
          (ascii "k")
          blank
        ≡ returned (ascii "v"))
    × (true ≡ false → ◌≡◌ {A = Option Bytes} none none)
store_call-get_example =
    store_call-get memory_storage memory_fsm memory_buckets world world place place (ascii "v")
      (ascii "v") (ascii "k") true blank taking stored found_replies
      (record { fm = refl; db = refl; behavior = refl }) refl refl refl refl update_call get_call

close_call :
    Service.close_database memory_storage memory_fsm world taking
    ≡ ok (closed, failed Error.request_error)
unfolding Service.close_database Service.close_result receive enter
close_call = refl

-- A closure that keeps the identifiers it is called with, and asks to end at once.
abbrev noting : Bytes → Bytes → List Bytes → List Bytes × Bool
noting id content ids = (ids ++ id ∷ [], false)

abbrev queried : MemoryActor
queried = record {
  fm = s_wait_event;
  act = record {
    behavior = wait_state;
    db = some blank;
    self_sent = [];
    replies =
        row_replies false (ascii "d") (ascii "c")
          (listed memory_cursors (ascii "d") (ascii "c") (ascii "a") blank);
  };
}

receive-query :
    receive memory_storage memory_fsm world
      (Msg.query_data (ascii "d") (ascii "c") (ascii "a") false)
      taking
    ≡ ok queried
unfolding receive query_data walk for_loop bytes_lt has_prefix
receive-query = refl

-- The child is poisoned before it gets the second row.
query-noting : query_rows noting 0 [] queried.act.replies ≡ (ascii "a1" ∷ [], returned tt)
unfolding query_rows has_prefix child_step
query-noting = refl

-- Or after it.
query-noting_late :
    query_rows noting 3 [] queried.act.replies ≡ (ascii "a1" ∷ ascii "a2" ∷ [], returned tt)
unfolding query_rows has_prefix child_step
query-noting_late = refl

query_rows-listed_example :
    Listed noting []
      (ascii "a1" ∷ [])
      world
      (listed memory_cursors (ascii "d") (ascii "c") (ascii "a") blank)
query_rows-listed_example =
    query_rows-listed memory_storage memory_fsm memory_cursors noting 0 [] (ascii "a1" ∷ []) world
      (ascii "d") (ascii "c") (ascii "a") blank taking queried
      (record { fm = refl; db = refl; behavior = refl }) refl refl refl (omega arith) (λ i e. cc)
      receive-query query-noting
