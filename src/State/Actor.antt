-- ===== src/State/Actor.antt =====
-- The status actor of internal/state/status-actor.go. A handler returns the new state and the message
-- that it sends to the parent; a panic restarts the actor.
use go_gwiot.Prelude.{
  String, ◌≡◌, sym, ◌∙◌, Bool, true, false, Option, none, some, Outcome, ok, panic, ◌>>=◌,
  >>=-eq-ok, str_eq, if◌then◌else◌, Bool-cases, inl, inr,
}
use go_gwiot.State.Value.{
  Decoded, ℤ, Float64, Value, is_null, float64, int64, string, object, Fields, end, field, get, put,
  IsMap, put-IsMap,
}
use go_gwiot.Prelude.Bytes.{Bytes}
use go_gwiot.State.Replace.{replace_keys}
use go_gwiot.State.Replace.Shape.{replace_keys_shape}
use go_gwiot.State.Keys.{is_removed}
use go_gwiot.State.Compare.{only_changes}
use go_gwiot.State.Compare.Reports.{entries}
use go_gwiot.State.Compare.Delta.{is_exact, merged, only_changes_merge}
use mathlib.Core.Path.{subst, ap₂}

-- The `groupID` bytes are the text that the keycloak actor formats, "" for none.
pub record StatusActor : Type 0 where
  pub last_status_msg : Option Fields
  pub group_id : String

unfoldable pub new_status : StatusActor
new_status = record { last_status_msg = none; group_id = "" }

-- `parseStatus`, over `json.Unmarshal`; `none` is the nil interface.
unfoldable pub parse_status : (Bytes → Decoded) → Bytes → Option Fields
parse_status unmarshal msg =
    let status = unmarshal msg in if status.failed then none else some status.value

-- How the request to the parent for the group ends.
pub data GroupReply : Type 0 where
  wait_error : GroupReply
  group_id_response : String → GroupReply
  other_reply : GroupReply

pub data StatusIn : Type 0 where
  started : Bool → StatusIn  -- whether `pubsub.Subscribe` succeeds
  stopping : StatusIn
  restarting : StatusIn
  status_msg : Fields → StatusIn

abbrev group_of : GroupReply → String
group_of wait_error = ""
group_of (group_id_response g) = g
group_of other_reply = ""

-- `groupID`: a group that is known is not asked for again.
unfoldable pub find_group : String → GroupReply → String
find_group known reply = if str_eq known "" then group_of reply else known

-- The group goes under "additionalData"/"groupName", by their abbreviations.
unfoldable pub with_group : String → Fields → Fields
with_group g status =
    if str_eq g "" then status else put status "aD" (object (field "gN" (string g) end))

-- `(int64)(v * 1000)` on a float64 is a parameter: floating-point arithmetic is not modelled.
module _ (millis : Float64 → ℤ) where
  stamped : Option Value → Fields → Fields
  stamped (some (float64 f)) status = put status "t" (int64 (millis f))
  stamped _ status = status

  unfoldable pub stamp : Fields → Fields
  unfolding stamped
  stamp status = stamped (get status "t") status

  -- The message that is kept and compared.
  unfoldable pub prepare : String → Fields → Fields
  unfolding stamp with_group
  prepare g msg = with_group g (stamp (replace_keys msg))

  -- `none` in the second place: nothing is sent. A nil `*StatusMsg` is `some none`.
  unfoldable pub receive :
      StatusActor → StatusIn → GroupReply → Outcome (StatusActor × Option (Option Fields))
  unfolding prepare find_group
  receive act (started true) reply = ok (act, none)
  receive act (started false) reply = panic
  receive act stopping reply = ok (act, none)
  receive act restarting reply = ok (act, none)
  receive act (status_msg msg) reply =
      let g = find_group act.group_id reply in
      let status = prepare g msg in
      do
        onlychanges ← only_changes status act.last_status_msg
        ok (record { last_status_msg = some status; group_id = g }, some onlychanges)

-- The last message is a map with distinct keys.
abbrev pub IsValid : StatusActor → Type 0
IsValid act = (l : Fields) → act.last_status_msg ≡ some l → IsMap l

with_group-IsMap : (g : String) (m : Fields) → IsMap m → IsMap (with_group g m)
unfolding with_group
with_group-IsMap g m u = elim (Bool-cases (str_eq g "")) [
  | inl e ↦ rw e u
  | inr e ↦ rw e (put-IsMap m "aD" (object (field "gN" (string g) end)) u)
]

module _ (millis : Float64 → ℤ) where
  stamped-IsMap : (o : Option Value) (m : Fields) → IsMap m → IsMap (stamped millis o m)
  unfolding stamped
  stamped-IsMap (some (float64 f)) m u = put-IsMap m "t" (int64 (millis f)) u
  stamped-IsMap _ m u = u

  pub prepare-IsMap : (g : String) (m : Fields) → IsMap (prepare millis g m)
  unfolding prepare
  prepare-IsMap g m =
      with_group-IsMap g (stamp millis (replace_keys m))
        (stamped-IsMap (get (replace_keys m) "t") (replace_keys m) (replace_keys_shape m).0)

  -- What is left of a status message once it is handled: the state, and the message that was sent.
  pub receive-status_msg :
      (act act' : StatusActor) (msg : Fields) (reply : GroupReply) (out : Option (Option Fields))
      → receive millis act (status_msg msg) reply ≡ ok (act', out)
      → let status = prepare millis (find_group act.group_id reply) msg in
        (act'.last_status_msg ≡ some status)
        × (o : Option Fields) × (out ≡ some o)
        × (only_changes status act.last_status_msg ≡ ok o)
  unfolding receive
  receive-status_msg act act' msg reply out h =
      let status = prepare millis (find_group act.group_id reply) msg in
      let (o, run, e) = >>=-eq-ok (only_changes status act.last_status_msg) _ h in
      (cc (e), o, cc (e), run)

  pub receive-IsValid :
      (act act' : StatusActor) (msg : StatusIn) (reply : GroupReply) (out : Option (Option Fields))
      → IsValid act
      → receive millis act msg reply ≡ ok (act', out)
      → IsValid act'
  unfolding receive
  receive-IsValid act act' (started true) reply out v h = λ l e. v l (cc (h, e))
  receive-IsValid act act' (started false) reply out v h = absurd cc
  receive-IsValid act act' stopping reply out v h = λ l e. v l (cc (h, e))
  receive-IsValid act act' restarting reply out v h = λ l e. v l (cc (h, e))
  receive-IsValid act act' (status_msg msg) reply out v h = λ l e.
      let kept = (receive-status_msg act act' msg reply out h).0 in
      let same : prepare millis (find_group act.group_id reply) msg ≡ l = cc (kept, e) in
      subst IsMap same (prepare-IsMap (find_group act.group_id reply) msg)

  -- From a state whose last message is a map with distinct keys, as every handled message leaves it,
  -- a status message that is handled without a panic sends one message to the parent. A receiver
  -- that merges that message into the last one knows, of every key that both messages hold, with an
  -- integer or a text in the last and no nil in the new one, the value that the actor now keeps,
  -- unless the key is one of `keysRemove`.
  pub receive_merge :
      (act act' : StatusActor) (msg last status : Fields) (reply : GroupReply)
      (out : Option (Option Fields)) (k : String) (v d : Value)
      → IsValid act
      → receive millis act (status_msg msg) reply ≡ ok (act', out)
      → act.last_status_msg ≡ some last
      → act'.last_status_msg ≡ some status
      → get last k ≡ some v
      → get status k ≡ some d
      → is_removed k ≡ false
      → is_exact v ≡ true
      → is_null d ≡ false
      → (o : Option Fields) × (out ≡ some o) × (merged (get (entries o) k) v ≡ d)
  receive_merge act act' msg last status reply out k v d val h el es lk sk n x nd =
      let (kept, o, sent, run) = receive-status_msg act act' msg reply out h in
      let same : prepare millis (find_group act.group_id reply) msg ≡ status = cc (kept, es) in
      let run' : only_changes status (some last) ≡ ok o =
        ap₂ only_changes (sym same) (sym el) ∙ run in
      (o, sent, only_changes_merge status last o k v d (val last el) run' lk sk n x nd)
