-- ===== src/Database/Memory.antt =====
-- A bbolt, its transactions and its state machine in memory, which meet the laws that the theorems of
-- the database take: every bucket is there from the beginning, and a cursor walks a fixed shelf.
use go_gwiot.Prelude.{
  ◌≡◌, ◌≢◌, refl, sym, ap, Bool, true, false, ◌&&◌, ◌||◌, Option, none, some, List, [], ◌∷◌,
  reverse, drop_while, if◌then◌else◌,
}
use go_gwiot.Prelude.Bytes.{Bytes, bytes_eq, bytes_lt, ascii}
use go_gwiot.Database.Errors.{Error, Result, returned, failed, returned-injective}
use go_gwiot.Database.Bolt.{
  Bolt, BucketLaws, CursorLaws, Entry, Yields, BucketPath, path_eq, IsAscending,
}
use go_gwiot.Database.Fsm.{Fsm, destination, moved}
use go_gwiot.Database.Storage.{Storage}

abbrev pub shelf : List Entry
shelf = (ascii "a1", ascii "x") ∷ (ascii "a2", ascii "y") ∷ (ascii "b1", ascii "z") ∷ []

pub record ShelfCursor : Type 0 where
  pub all : List Entry
  pub ahead : List Entry
  pub behind : List Entry

abbrev pub Table : Type 0
Table = BucketPath → Bytes → Option Bytes

-- The first of the entries, with those that are left handed to the new cursor.
abbrev pub move_on :
    (List Entry → ShelfCursor) → ShelfCursor → List Entry → ShelfCursor × Option Entry
move_on at c [] = (c, none)
move_on at c (e ∷ rest) = (at rest, some e)

abbrev pub forward : ShelfCursor → List Entry → ShelfCursor
forward c rest = record c { ahead = rest }

abbrev pub backward : ShelfCursor → List Entry → ShelfCursor
backward c rest = record c { behind = rest }

abbrev pub written : Table → BucketPath → Bytes → Option Bytes → Table
written t p k v = λ q j. if path_eq p q && bytes_eq k j then v else t q j

abbrev pub memory : Bolt
memory = record {
  Tx = Table;
  has_bucket = λ t p. true;
  create_bucket = λ t p. returned t;
  get = λ t p k. t p k;
  put = λ t p k v. returned (written t p k (some v));
  delete = λ t p k. returned (written t p k none);
  Cursor = ShelfCursor;
  cursor = λ t p. record { all = shelf; ahead = []; behind = [] };
  first = λ c. move_on (forward c) c c.all;
  last = λ c. move_on (backward c) c (reverse c.all);
  next = λ c. move_on (forward c) c c.ahead;
  prev = λ c. move_on (backward c) c c.behind;
  seek = λ c p. move_on (forward c) c (drop_while (λ e. bytes_lt e.0 p) c.all);
}

or_true : (x : Bool) → true ≡ (x || true)
or_true true = refl
or_true false = refl

table_of : {t t' : Table} → returned t ≡ returned t' → (p : BucketPath) (k : Bytes) → t' p k ≡ t p k
table_of e p k = ap (λ (x : Table). x p k) (sym (returned-injective e))

pub memory_buckets : BucketLaws memory
memory_buckets = record {
  absent-get = λ t p k h. absurd cc;
  nested-has = λ t db coll h. refl;
  create-has = λ t t' p q h. or_true (path_eq p q);
  create-get = λ t t' p q k h. table_of h q k;
  put-has = λ t t' p q k v h. refl;
  put-get = λ t t' p q k j v h. table_of h q j;
  delete-has = λ t t' p q k h. refl;
  delete-get = λ t t' p q k j h. table_of h q j;
}

pub forward-Yields :
    (c : ShelfCursor) (l : List Entry)
    → Yields (λ (x : ShelfCursor). x.ahead) l (move_on (forward c) c l)
forward-Yields c [] = refl
forward-Yields c (e ∷ l) = (refl, refl)

pub backward-Yields :
    (c : ShelfCursor) (l : List Entry)
    → Yields (λ (x : ShelfCursor). x.behind) l (move_on (backward c) c l)
backward-Yields c [] = refl
backward-Yields c (e ∷ l) = (refl, refl)

pub all-move_on : (c : ShelfCursor) (l : List Entry) → (move_on (forward c) c l).0.all ≡ c.all
all-move_on c [] = refl
all-move_on c (e ∷ l) = refl

pub shelf-IsAscending : IsAscending shelf
unfolding bytes_lt
shelf-IsAscending = (refl, (refl, tt))

abbrev pub memory_cursors : CursorLaws memory
memory_cursors = record {
  all = λ c. c.all;
  ahead = λ c. c.ahead;
  behind = λ c. c.behind;
  listing = λ t p. shelf;
  listing-IsAscending = λ t p. shelf-IsAscending;
  cursor-all = λ t p. refl;
  first-Yields = λ c. forward-Yields c c.all;
  next-Yields = λ c. forward-Yields c c.ahead;
  last-Yields = λ c. backward-Yields c (reverse c.all);
  prev-Yields = λ c. backward-Yields c c.behind;
  seek-Yields = λ c p. forward-Yields c (drop_while (λ e. bytes_lt e.0 p) c.all);
  seek-all = λ c p. all-move_on c (drop_while (λ e. bytes_lt e.0 p) c.all);
}

abbrev pub committed : Table → Result Table → Table × Option Error
committed h (returned t) = (t, none)
committed h (failed e) = (h, some e)

pub committed-commits :
    (h : Table) (r : Result Table) → (committed h r).1 ≡ none → r ≡ returned (committed h r).0
committed-commits h (returned t) q = refl
committed-commits h (failed e) q = absurd cc

pub committed-rolls_back :
    (h : Table) (r : Result Table) (e : Error) → (committed h r).1 ≡ some e → (committed h r).0 ≡ h
committed-rolls_back h (returned t) e q = absurd cc
committed-rolls_back h (failed x) e q = refl

pub committed-fails :
    (h : Table) (r : Result Table) (e : Error) → r ≡ failed e → (committed h r).1 ≢ none
committed-fails h (returned t) e q = λ n. cc
committed-fails h (failed x) e q = λ n. cc

abbrev pub memory_storage : Storage memory
memory_storage = record {
  Handle = Table;
  contents = λ h. h;
  update = λ h f. committed h (f h);
  view = λ h f. f h;
  close = λ h. h;
  error_text = λ e. [];
  update-commits = λ h f q. committed-commits h (f h) q;
  update-rolls_back = λ h f e q. committed-rolls_back h (f h) e q;
  update-fails = λ h f e q. committed-fails h (f h) e q;
  view-reads = λ h f a q. q;
}

abbrev pub memory_fsm : {A : Type 0} → Fsm A
memory_fsm = record {
  fire = λ table enter ev (s, a). moved enter s a (destination table ev s);
  fire_refused = λ table enter ev s a h. ap (moved enter s a) h;
  fire_moves = λ table enter ev s d a h n. ap (moved enter s a) h;
}
