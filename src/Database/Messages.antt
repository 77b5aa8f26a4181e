-- ===== src/Database/Messages.antt =====
-- The messages of internal/database/messages.go, and those of the actor system that the database
-- actor handles. The `actor.Started` and `actor.Stopping` of the library are `started`, `stopping`.
use go_gwiot.Prelude.{Bool, List}
use go_gwiot.Prelude.Bytes.{Bytes}

-- Where a record is kept.
pub record Place : Type 0 where
  pub id : Bytes
  pub database : Bytes
  pub collection : Bytes

-- What the actor receives.
pub data Msg : Type 0 where
  started : Msg
  stopping : Msg
  flush_filesystem : Msg
  open_db : Msg
  opened_db : Msg
  close_db : Msg
  error_db : Msg
  insert_data : Place → Bytes → Msg
  update_data : Place → Bytes → Msg
  delete_data : Place → Msg
  get_data : Place → Msg
  search_collection : Bytes → Bytes → Bool → Msg  -- database, prefix, reverse
  query_data : Bytes → Bytes → Bytes → Bool → Msg  -- database, collection, prefix, reverse
  other_msg : Msg

-- What it sends to the sender of a message.
pub data Reply : Type 0 where
  opened_db_reply : Reply
  closed_db_reply : Reply
  ack_persist_data : Place → Reply
  no_ack_persist_data : Bytes → Reply
  ack_delete_data : Place → Reply
  no_ack_delete_data : Bytes → Reply
  ack_get_data : Bytes → Reply
  no_ack_get_data : Bytes → Reply
  search_collection_response : Bytes → List Bytes → Reply
  query_response : Place → Bytes → Reply
