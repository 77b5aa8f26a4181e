-- ===== src/Database/Actor/Panics.antt =====
-- No reachable request meets a nil handle.
use go_gwiot.Prelude.{◌≡◌, ◌≢◌, ◌<◌, ◌>>=◌, length, Option, none, some, ok, panic}
use go_gwiot.Prelude.Bytes.{Bytes}
use go_gwiot.Database.Bolt.{Bolt, BucketPath, CursorLaws, database, collection}
use go_gwiot.Database.Repo.{remove_data}
use go_gwiot.Database.Repo
use go_gwiot.Database.Fsm.{Fsm}
use go_gwiot.Database.Messages.{Msg, search_collection, query_data}
use go_gwiot.Database.Storage.{Storage}
use go_gwiot.Database.Actor.{Actor, World}

-- The bucket that a request walks through with a cursor.
abbrev pub walked : Msg → Option BucketPath
walked (search_collection db p r) = some (database db)
walked (query_data db c p r) = some (collection db c)
walked _ = none

module _ {b : Bolt} (st : Storage b) (fsm : Fsm (Actor st.Handle)) (laws : CursorLaws b) where
  open st use {Handle, contents}

  -- The loops over a cursor may run for longer than the bucket that the request walks through.
  abbrev pub Fueled : World Handle → Msg → Option Handle → Type 0
  Fueled w m db =
      (h : Handle) (p : BucketPath)
      → db ≡ some h
      → walked m ≡ some p
      → length (laws.listing (contents h) p) < w.fuel

  ok-ne-panic : {A : Type 0} (a : A) → ok a ≢ panic
  ok-ne-panic a e = cc
