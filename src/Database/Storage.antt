-- ===== src/Database/Storage.antt =====
-- What the database actor uses of a `*bbolt.DB`, with the documented laws of its transactions.
use go_gwiot.Prelude.{◌≡◌, ◌≢◌, Option, none, some}
use go_gwiot.Prelude.Bytes.{Bytes}
use go_gwiot.Database.Errors.{Error, Result, returned, failed}
use go_gwiot.Database.Bolt.{Bolt}

module _ (b : Bolt) where
  open b use {Tx}

  pub record Storage : Type 1 where
    -- an open or closed handle, with the file behind it
    pub Handle : Type 0
    -- what the file holds
    pub contents : Handle → Tx
    pub update : Handle → (Tx → Result Tx) → Handle × Option Error
    pub view : {A : Type 0} → Handle → (Tx → Result A) → Result A
    pub close : Handle → Handle
    -- `err.Error()`
    pub error_text : Error → Bytes
    -- "If no error is returned from the function then the transaction is committed": the file then
    -- holds what the function made of it, and otherwise what it held.
    pub update-commits :
        (d : Handle) (f : Tx → Result Tx)
        → (update d f).1 ≡ none
        → f (contents d) ≡ returned (contents (update d f).0)
    pub update-rolls_back :
        (d : Handle) (f : Tx → Result Tx) (e : Error)
        → (update d f).1 ≡ some e
        → contents (update d f).0 ≡ contents d
    -- a function that fails fails the transaction
    pub update-fails :
        (d : Handle) (f : Tx → Result Tx) (e : Error)
        → f (contents d) ≡ failed e
        → (update d f).1 ≢ none
    pub view-reads :
        {A : Type 0} (d : Handle) (f : Tx → Result A) (a : A)
        → view d f ≡ returned a
        → f (contents d) ≡ returned a
