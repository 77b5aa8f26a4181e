-- ===== src/Database/Actor.antt =====
-- The database actor of internal/database/actor.go, with the callbacks of internal/database/fsm.go.
pub mod Opening
pub mod Waiting
pub mod Lifecycle
pub mod Panics
pub mod Answers
pub mod Stores
pub mod Closing
use mathlib.Core.Option
use go_gwiot.Prelude.{
  ℕ, ◌≡◌, refl, Bool, true, false, ◌&&◌, ◌||◌, Option, none, some, List, [], ◌∷◌, ◌++◌, map,
  Outcome, ok, panic, ◌>>=◌, if◌then◌else◌,
}
use go_gwiot.Prelude.Bytes.{Bytes}
use go_gwiot.Database.Errors.{
  Error, bolt, database_not_open, database_open, database_read_only, tx_not_writable, Result,
  returned, failed,
}
use go_gwiot.Database.Bolt.{Bolt, BucketPath}
use go_gwiot.Database.Repo.{
  Turn, QueryType, is_blank, persist_data, remove_data, search_collections,
}
use go_gwiot.Database.Repo
use go_gwiot.Database.Fsm.{
  Fsm, State, s_init, s_open, s_close, s_restart, s_wait_event, Event, e_open_cmd, e_opened,
  e_closed, e_error, fsm_events, state_eq,
}
use go_gwiot.Database.Messages.{
  Place, Msg, started, stopping, flush_filesystem, open_db, opened_db, close_db, error_db,
  insert_data, update_data, delete_data, get_data, search_collection, query_data, other_msg, Reply,
  opened_db_reply, ack_persist_data, no_ack_persist_data, ack_delete_data, no_ack_delete_data,
  ack_get_data, no_ack_get_data, search_collection_response, query_response,
}
use go_gwiot.Database.Storage.{Storage}

-- The two functions that `behavior.Become` is given.
pub data Behavior : Type 0 where
  close_state wait_state : Behavior

-- The fields of `dbActor` that the handlers write, but for the state machine's; `self_sent` collects
-- what the actor sends to itself, and `replies` what it sends to the sender of the message at hand.
pub record Actor (H : Type 0) : Type 0 where
  pub behavior : Behavior
  pub db : Option H
  pub self_sent : List Msg
  pub replies : List Reply

-- `dbActor` with its state machine.
pub record DbActor (H : Type 0) : Type 0 where
  pub fm : State
  pub act : Actor H

-- What the world answers while one message is handled: the result of `bbolt.Open`, of `uuid.NewUUID`,
-- of `time.After` and `<-stop` in each round of a query, whether the message has a sender, how far
-- the cursor loops may run, and whether the acknowledgement of a query gets ahead of the last row,
-- which another goroutine still has to forward then.
pub record World (H : Type 0) : Type 0 where
  pub opened : Option H  -- `none`: `bbolt.Open` returned an error
  pub fresh : Result Bytes
  pub turns : ℕ → Turn
  pub has_sender : Bool
  pub fuel : ℕ
  pub ack_first : Bool

-- `errors.Is` of the four handlers that name two errors, and of the update that names four.
abbrev pub is_fatal : Error → Bool
is_fatal (bolt database_not_open) = true
is_fatal (bolt database_open) = true
is_fatal _ = false

abbrev pub is_fatal_update : Error → Bool
is_fatal_update (bolt database_not_open) = true
is_fatal_update (bolt database_open) = true
is_fatal_update (bolt database_read_only) = true
is_fatal_update (bolt tx_not_writable) = true
is_fatal_update _ = false

-- `MsgQueryResponse`
abbrev pub row_reply : Bytes → Bytes → QueryType → Reply
row_reply db coll q =
    query_response (record { id = q.id; database = db; collection = coll }) q.content

-- What reaches the sender of a query, in the order in which it does. The goroutine that forwards the
-- rows waits for the answer to each before it takes the next one from the channel, which has no
-- buffer; so `QueryData`, and then the acknowledgement, can be ahead of it by the last row only.
abbrev pub row_replies : Bool → Bytes → Bytes → List QueryType → List Reply
row_replies ack_first db coll [] = ack_get_data [] ∷ []
row_replies true db coll (q ∷ []) = ack_get_data [] ∷ row_reply db coll q ∷ []
row_replies false db coll (q ∷ []) = row_reply db coll q ∷ ack_get_data [] ∷ []
row_replies ack_first db coll (q ∷ r ∷ rows) =
    row_reply db coll q ∷ row_replies ack_first db coll (r ∷ rows)

module _ {b : Bolt} (st : Storage b) (fsm : Fsm (Actor st.Handle)) where
  open b use {Tx}
  open st use {Handle, update, view, close, error_text}

  -- `a.ctx.Send(a.ctx.Self(), m)`
  abbrev send_self : Msg → Actor Handle → Actor Handle
  send_self m a = record a { self_sent = a.self_sent ++ m ∷ [] }

  -- `if ctx.Sender() != nil { ctx.Respond(r) }`
  abbrev respond : World Handle → Reply → Actor Handle → Actor Handle
  respond w r a = if w.has_sender then record a { replies = a.replies ++ r ∷ [] } else a

  -- The callbacks `enter_sOpen`, `enter_sClose` and `enter_sRestart`. In the first a handle that is
  -- there is closed, and stays where it is if `bbolt.Open` fails.
  unfoldable pub enter : World Handle → State → Actor Handle → Actor Handle
  enter w s_open a = elim w.opened [
    | none ↦ send_self error_db (record a { db = Option.map close a.db })
    | some d ↦ send_self opened_db (record a { db = some d })
  ]
  enter w s_close a = record a { db = none; behavior = close_state }
  enter w s_restart a = send_self open_db (record a { behavior = close_state })
  enter w _ a = a

  -- `a.fm.Event(ev)`; its error is not read.
  unfoldable pub event : World Handle → Event → DbActor Handle → DbActor Handle
  event w ev d =
      let (s, a) = fsm.fire fsm_events (enter w) ev (d.fm, d.act) in record { fm = s; act = a }

  abbrev on_act : (Actor Handle → Actor Handle) → DbActor Handle → DbActor Handle
  on_act f d = record d { act = f d.act }

  -- `a.fm.Current() == sOpen || a.fm.Current() == sWaitEvent`
  abbrev is_up : State → Bool
  is_up s = state_eq s s_open || state_eq s s_wait_event

  unfoldable pub close_step : World Handle → Msg → DbActor Handle → DbActor Handle
  unfolding event
  close_step w started d = event w e_open_cmd d
  close_step w error_db d = event w e_error d
  close_step w open_db d =
      let d' = event w e_open_cmd d in
      if is_up d'.fm then on_act (respond w opened_db_reply) d' else d'
  close_step w opened_db d = event w e_opened (on_act (λ a. record a { behavior = wait_state }) d)
  close_step w _ d = d

  -- The end of a request: an error is told to the sender, and fires the machine if it is fatal.
  unfoldable pub settle :
      World Handle
      → (Error → Bool)
      → (Bytes → Reply)
      → DbActor Handle
      → Result (List Reply)
      → DbActor Handle
  unfolding event
  settle w fatal no_ack d (returned rs) =
      if w.has_sender then on_act (λ a. record a { replies = a.replies ++ rs }) d else d
  settle w fatal no_ack d (failed e) =
      let d' = on_act (respond w (no_ack (error_text e))) d in
      if fatal e then event w e_error d' else d'

  -- A read or write on `a.db`, which panics if that is nil.
  abbrev with_db : DbActor Handle → (Handle → Outcome (DbActor Handle)) → Outcome (DbActor Handle)
  with_db d f = elim d.act.db [ none ↦ panic | some h ↦ f h ]

  abbrev keep : DbActor Handle → Handle → DbActor Handle
  keep d h = on_act (λ a. record a { db = some h }) d

  abbrev acknowledged : Reply → Option Error → Result (List Reply)
  acknowledged r none = returned (r ∷ [])
  acknowledged r (some e) = failed e

  -- `a.db.Update(f)`, and the reply to it.
  abbrev write :
      World Handle
      → (Error → Bool)
      → (Bytes → Reply)
      → Reply
      → (Tx → Result Tx)
      → DbActor Handle
      → Outcome (DbActor Handle)
  write w fatal no_ack ack f d =
      with_db d (λ h.
        let (h', r) = update h f in ok (settle w fatal no_ack (keep d h') (acknowledged ack r)))

  -- `MsgInsertData` and `MsgUpdateData`: a record with no id gets a new one.
  unfoldable pub persist :
      World Handle
      → Place
      → Bytes
      → Bool
      → (Error → Bool)
      → DbActor Handle
      → Outcome (DbActor Handle)
  unfolding settle
  persist w p content upd fatal d = elim (if is_blank p.id then w.fresh else returned p.id) [
    | failed e ↦ ok (settle w fatal no_ack_persist_data d (failed e))
    | returned id ↦
        write w fatal no_ack_persist_data (ack_persist_data (record p { id = id }))
          (persist_data b w.fresh id content p.database p.collection upd) d
  ]

  -- `a.db.View(f)`, and the replies to what it reads. Fuel that runs out shows as a panic.
  abbrev read :
      {A : Type 0}
      → World Handle
      → (A → Outcome (List Reply))
      → (Tx → Result A)
      → DbActor Handle
      → Outcome (DbActor Handle)
  read w answer f d = with_db d (λ h. elim (view h f) [
    | failed e ↦ ok (settle w is_fatal no_ack_get_data d (failed e))
    | returned a ↦ do rs ← answer a; ok (settle w is_fatal no_ack_get_data d (returned rs))
  ])

  abbrev pub found_names : Bytes → Option (List Bytes) → Outcome (List Reply)
  found_names db none = panic
  found_names db (some names) = ok (search_collection_response db names ∷ [])

  abbrev pub found_rows : Bool → Bytes → Bytes → Option (List QueryType) → Outcome (List Reply)
  found_rows ack_first db coll none = panic
  found_rows ack_first db coll (some rows) = ok (row_replies ack_first db coll rows)

  unfoldable pub wait_step : World Handle → Msg → DbActor Handle → Outcome (DbActor Handle)
  unfolding event settle persist
  wait_step w flush_filesystem d = ok d
  wait_step w stopping d = with_db d (λ h. ok (event w e_closed (keep d (close h))))
  wait_step w open_db d = ok (on_act (respond w opened_db_reply) d)
  wait_step w error_db d = ok (event w e_error d)
  wait_step w (insert_data p content) d = persist w p content false is_fatal d
  wait_step w (update_data p content) d = persist w p content true is_fatal_update d
  wait_step w (delete_data p) d =
      write w is_fatal no_ack_delete_data (ack_delete_data p)
        (remove_data b p.id p.database p.collection) d
  wait_step w (get_data p) d =
      read w (λ v. ok (ack_get_data v ∷ [])) (Repo.get_data b [] p.id p.database p.collection) d
  wait_step w (search_collection db prefix_id reversed) d =
      read w (found_names db)
        (λ t. returned (search_collections b w.fuel [] db prefix_id reversed t)) d
  wait_step w (query_data db coll prefix_id reversed) d =
      read w (found_rows w.ack_first db coll)
        (λ t. returned (Repo.query_data b w.fuel w.turns db coll prefix_id reversed t)) d
  wait_step w close_db d = with_db d (λ h. ok (event w e_closed (keep d (close h))))
  wait_step w _ d = ok d

  -- `Receive`: what was sent for the message before is no longer there.
  unfoldable pub receive : World Handle → Msg → DbActor Handle → Outcome (DbActor Handle)
  unfolding close_step wait_step
  receive w m d =
      let d' = on_act (λ a. record a { self_sent = []; replies = [] }) d in
      elim d.act.behavior [ close_state ↦ ok (close_step w m d') | wait_state ↦ wait_step w m d' ]
