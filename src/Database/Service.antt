-- ===== src/Database/Service.antt =====
-- The service of internal/database/service.go: each call is one message to the actor, and the first
-- answer to it. An answer that comes too late is `none`, as is no answer.
pub mod Trips
pub mod Query
use go_gwiot.Prelude.{Bool, Option, none, some, List, [], ◌∷◌, Outcome, ok, panic, ◌>>=◌}
use go_gwiot.Prelude.Bytes.{Bytes}
use go_gwiot.Database.Errors.{
  Error, error_new, request_error, without_response, Result, returned, failed,
}
use go_gwiot.Database.Messages.{
  Place, Msg, open_db, close_db, insert_data, update_data, delete_data, get_data, search_collection,
  Reply, opened_db_reply, closed_db_reply, ack_persist_data, no_ack_persist_data, ack_delete_data,
  no_ack_delete_data, ack_get_data, no_ack_get_data, search_collection_response, query_response,
}
use go_gwiot.Database.Bolt.{Bolt}
use go_gwiot.Database.Fsm.{Fsm}
use go_gwiot.Database.Storage.{Storage}
use go_gwiot.Database.Actor.{Actor, DbActor, World, receive}

-- What each call makes of the answer.
unfoldable pub open_result : Option Reply → Result (Unit {0})
open_result none = failed request_error
open_result (some opened_db_reply) = returned tt
open_result (some _) = failed without_response

unfoldable pub close_result : Option Reply → Result (Unit {0})
close_result none = failed request_error
close_result (some closed_db_reply) = returned tt
close_result (some _) = failed without_response

unfoldable pub persist_result : Option Reply → Result Bytes
persist_result none = failed request_error
persist_result (some (ack_persist_data p)) = returned p.id
persist_result (some (no_ack_persist_data text)) = failed (error_new text)
persist_result (some _) = failed without_response

unfoldable pub delete_result : Option Reply → Result (Unit {0})
delete_result none = failed request_error
delete_result (some (ack_delete_data p)) = returned tt
delete_result (some (no_ack_delete_data text)) = failed (error_new text)
delete_result (some _) = failed without_response

unfoldable pub get_result : Option Reply → Result Bytes
get_result none = failed request_error
get_result (some (ack_get_data content)) = returned content
get_result (some (no_ack_get_data text)) = failed (error_new text)
get_result (some _) = failed without_response

unfoldable pub search_result : Option Reply → Result (List Bytes)
search_result none = failed request_error
search_result (some (search_collection_response db names)) = returned names
search_result (some (no_ack_get_data text)) = failed (error_new text)
search_result (some _) = failed without_response

-- `RequestFuture(…).Result()` takes the first answer.
abbrev pub first_reply : List Reply → Option Reply
first_reply [] = none
first_reply (r ∷ rs) = some r

module _ {b : Bolt} (st : Storage b) (fsm : Fsm (Actor st.Handle)) where
  open st use {Handle}

  -- A request that the actor handles in time.
  abbrev pub request :
      {A : Type 0}
      → World Handle
      → Msg
      → (Option Reply → Result A)
      → DbActor Handle
      → Outcome (DbActor Handle × Result A)
  request w m result d = do d' ← receive st fsm w m d; ok (d', result (first_reply d'.act.replies))

  unfoldable pub open_database :
      World Handle → DbActor Handle → Outcome (DbActor Handle × Result (Unit {0}))
  open_database w d = request w open_db open_result d

  unfoldable pub close_database :
      World Handle → DbActor Handle → Outcome (DbActor Handle × Result (Unit {0}))
  close_database w d = request w close_db close_result d

  unfoldable pub insert :
      World Handle → Place → Bytes → DbActor Handle → Outcome (DbActor Handle × Result Bytes)
  insert w p content d = request w (insert_data p content) persist_result d

  unfoldable pub update :
      World Handle → Place → Bytes → DbActor Handle → Outcome (DbActor Handle × Result Bytes)
  update w p content d = request w (update_data p content) persist_result d

  unfoldable pub delete :
      World Handle → Place → DbActor Handle → Outcome (DbActor Handle × Result (Unit {0}))
  delete w p d = request w (delete_data p) delete_result d

  unfoldable pub get :
      World Handle → Place → DbActor Handle → Outcome (DbActor Handle × Result Bytes)
  get w p d = request w (get_data p) get_result d

  unfoldable pub search_collections :
      World Handle
      → Bytes
      → Bytes
      → Bool
      → DbActor Handle
      → Outcome (DbActor Handle × Result (List Bytes))
  search_collections w db prefix_id reversed d =
      request w (search_collection db prefix_id reversed) search_result d

  -- `UpdateAsync` and `DeleteWithoutResponse`: the answer goes nowhere.
  unfoldable pub update_async :
      World Handle → Place → Bytes → DbActor Handle → Outcome (DbActor Handle)
  update_async w p content d = receive st fsm w (update_data p content) d

  unfoldable pub delete_without_response :
      World Handle → Place → DbActor Handle → Outcome (DbActor Handle)
  delete_without_response w p d = receive st fsm w (delete_data p) d
