-- ===== src/Certificates.antt =====
-- `LoadLocalCert` of internal/utils/utils.go: the certificates that the clients of the platform trust.
use go_gwiot.Prelude.{
  ◌≡◌, refl, ap, ◌∙◌, Bool, Option, none, some, List, [], ◌∷◌, ◌++◌, inl, inr, filter,
  if◌then◌else◌, Bool-cases, map, sym,
}
use mathlib.Core.List.{append_assoc, append-nil}
use go_gwiot.Prelude.Bytes.{Bytes}

-- The certificates of a pool, by the files that they come from.
abbrev pub Pool : Type 0
Pool = List Bytes

-- Whether `AppendCertsFromPEM` takes the file is a parameter.
module _ (is_pem : Bytes → Bool) where
  abbrev pub appended : Pool → Bytes → Pool
  appended pool file = if is_pem file then pool ++ file ∷ [] else pool

  -- The loop over the directory. A file that cannot be read is `none`, and ends the program: `none`.
  unfoldable pub append_certs : Pool → List (Option Bytes) → Option Pool
  append_certs pool [] = some pool
  append_certs pool (none ∷ certs) = none
  append_certs pool (some file ∷ certs) = append_certs (appended pool file) certs

  -- The pool of the system, which may be missing, and what the directory holds, if it can be read.
  unfoldable pub load_local_cert : Option Pool → Option (List (Option Bytes)) → Option Pool
  unfolding append_certs
  load_local_cert system certs =
      let root_cas : Pool = elim system [ none ↦ [] | some pool ↦ pool ] in
      elim certs [ none ↦ some root_cas | some files ↦ append_certs root_cas files ]

  appended-filter :
      (pool files : List Bytes) (file : Bytes)
      → appended pool file ++ filter is_pem files ≡ pool ++ filter is_pem (file ∷ files)
  appended-filter pool files file = elim (Bool-cases (is_pem file)) [
    | inl e ↦ rw e (append_assoc pool (file ∷ []) (filter is_pem files))
    | inr e ↦ rw e refl
  ]

  append_certs-read :
      (pool files : List Bytes)
      → append_certs pool (map some files) ≡ some (pool ++ filter is_pem files)
  unfolding append_certs
  append_certs-read pool [] = ap some (sym (append-nil pool))
  append_certs-read pool (file ∷ files) =
      append_certs-read (appended pool file) files ∙ ap some (appended-filter pool files file)

  append_certs-unread :
      (pool : Pool) (before after : List (Option Bytes))
      → append_certs pool (before ++ none ∷ after) ≡ none
  unfolding append_certs
  append_certs-unread pool [] after = refl
  append_certs-unread pool (none ∷ before) after = refl
  append_certs-unread pool (some file ∷ before) after =
      append_certs-unread (appended pool file) before after

  -- With every file of the directory readable, the pool is that of the system, if there is one, and then
  -- the files that hold certificates, in their order.
  pub load_local_cert-read :
      (system files : List Bytes)
      → (load_local_cert (some system) (some (map some files))
          ≡ some (system ++ filter is_pem files))
        × (load_local_cert none (some (map some files)) ≡ some (filter is_pem files))
  unfolding load_local_cert
  load_local_cert-read system files = (append_certs-read system files, append_certs-read [] files)

  -- One file that cannot be read ends the program.
  pub load_local_cert-unread :
      (system : Option Pool) (before after : List (Option Bytes))
      → load_local_cert system (some (before ++ none ∷ after)) ≡ none
  unfolding load_local_cert
  load_local_cert-unread none before after = append_certs-unread [] before after
  load_local_cert-unread (some pool) before after = append_certs-unread pool before after
