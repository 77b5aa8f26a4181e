-- ===== src/Pipeline/Stored.antt =====
-- A message that cannot be sent, from the remote actor through the database service into the file.
use go_gwiot.Prelude.{
  ℕ, ◌≡◌, refl, sym, ap, ◌∙◌, true, false, ◌&&◌, List, [], ◌∷◌, ◌++◌, ok, inl, inr, ok-injective,
}
use mathlib.Core.Path.{subst}
use go_gwiot.Prelude.Bytes.{Bytes, bytes_eq_refl}
use go_gwiot.Database.Bolt.{Bolt, BucketLaws}
use go_gwiot.Database.Errors.{returned, returned-injective}
use go_gwiot.Database.Fsm.{Fsm}
use go_gwiot.Database.Storage.{Storage}
use go_gwiot.Database.Messages.{Place}
use go_gwiot.Database.Actor as Database
use go_gwiot.Database.Actor.{Actor, DbActor}
use go_gwiot.Database.Actor.Stores.{Takes, reads_after}
use go_gwiot.Database.Repo.{is_blank}
use go_gwiot.Database.Service
use go_gwiot.Database.Service.Trips.{store_call-get}
use go_gwiot.Remote.Numbers.{decimal, decimal-cons}
use go_gwiot.Remote.Prepare.{RemoteMsg2, prepare_msg}
use go_gwiot.Remote.Replay.{Effect, update, database_name, collection_usos_data}
use go_gwiot.Remote.Actor.{RemoteActor, World, Output, remote_msg2, receive}
use go_gwiot.Remote.Actor.Backup.{tried, Fate, handed_over, backed_up, dropped, receive-Fate}

-- The record of a message that is kept at this time.
abbrev pub place_at : ℕ → Place
place_at nano = record {
  id = decimal nano;
  database = database_name;
  collection = collection_usos_data;
}

decimal-blank : (n : ℕ) → is_blank (decimal n) ≡ false
decimal-blank n = let (c, cs, e) = decimal-cons n in ap is_blank e

Fate-kept :
    (w : World) (ps ps' : RemoteActor) (content : Bytes) (es : List Effect)
    → Fate w ps ps' content es
    → ps.is_connected ≡ false
    → ps.disable_replay ≡ false
    → (ps'.has_db && ps'.is_database_open) ≡ true
    → (tried : List Effect) × (es
        ≡ tried ++ update (decimal w.unix_nano) content database_name collection_usos_data ∷ [])
Fate-kept w ps ps' content es (handed_over q x e) c d o = absurd cc
Fate-kept w ps ps' content es (backed_up u q q' e) c d o = (tried w ps content, e)
Fate-kept w ps ps' content es (dropped u (inl q) e) c d o = absurd cc
Fate-kept w ps ps' content es (dropped u (inr q) e) c d o = absurd cc

module _ {b : Bolt} (st : Storage b) (fsm : Fsm (Actor st.Handle)) (laws : BucketLaws b) where
  open st use {Handle}

  reads_after-here :
      (p : Place) (content : Bytes) (h : Handle)
      → reads_after st fsm p content p.database p.collection p.id h ≡ returned content
  reads_after-here p content h =
      rw (bytes_eq_refl p.database, bytes_eq_refl p.collection, bytes_eq_refl p.id) refl

  -- A message that comes while the client is not connected, with replays enabled and the database open, is
  -- given to the database service, as the last thing that is done for it, under the time as its id.
  -- If the database actor takes requests, and the service returns no error for that call, and then
  -- none for a read of that record, then the call has returned that id and the read returns the
  -- text that was to be sent.
  pub receive-stored :
      (wr : World) (ps ps' : RemoteActor) (msg : RemoteMsg2) (content : Bytes) (out : Output)
      (w w' : Database.World Handle) (h : Handle) (d d' d'' : DbActor Handle) (id found : Bytes)
      → receive wr (remote_msg2 msg) ps ≡ ok (ps', out)
      → prepare_msg wr.quoted_host msg ≡ ok content
      → ps.is_connected ≡ false
      → ps.disable_replay ≡ false
      → (ps'.has_db && ps'.is_database_open) ≡ true
      → Takes st fsm h d
      → w.has_sender ≡ true
      → w'.has_sender ≡ true
      → Service.update st fsm w (place_at wr.unix_nano) content d ≡ ok (d', returned id)
      → Service.get st fsm w' (place_at wr.unix_nano) d' ≡ ok (d'', returned found)
      → ((tried : List Effect) × (out.effects
            ≡ tried
              ++ update (decimal wr.unix_nano) content database_name collection_usos_data ∷ []))
        × (id ≡ decimal wr.unix_nano)
        × (found ≡ content)
  receive-stored wr ps ps' msg content out w w' h d d' d'' id found r p c e o t s s' u g =
      let place = place_at wr.unix_nano in
      let (content', p', fate) = receive-Fate wr ps ps' msg out r in
      let same = ok-injective (sym p' ∙ p) in
      let blank = decimal-blank wr.unix_nano in
      let (named, read, free) =
        store_call-get st fsm laws w w' place place content found id true h d d' d'' t s s' blank
          blank u g in
      (
        Fate-kept wr ps ps' content out.effects
            (subst (λ x. Fate wr ps ps' x out.effects) same fate) c e o,
        named,
        returned-injective (sym read ∙ reads_after-here place content h),
      )
