-- ===== src/RemoteNats.antt =====
-- The client of the platform over NATS (internal/remote-natsio): remote-actor.go, and connect and
-- sendMSG of client-nats.go. The program has it as the alternative to the remote actor and its MQTT client.
-- A handler returns the new state and what it did; a panic restarts the actor. Sleeping, logging and
-- `lastSendedMsg`, which is only printed, are left out, and one reading of the clock serves a message.
pub mod Kept
pub mod Publishing
pub mod Rate
pub mod Tokens
mod Examples
use go_gwiot.Prelude.{
  ℕ, zero, suc, ◌+◌, Bool, true, false, ◌&&◌, ◌||◌, not, Option, none, some, List, [], ◌∷◌, ◌++◌,
  ltb, Outcome, ok, panic, ◌>>=◌, if◌then◌else◌,
}
use go_gwiot.Prelude.Bytes.{Bytes, ascii}
use go_gwiot.Remote.Numbers.{decimal}
use go_gwiot.Remote.Prepare.{RemoteMsg2, prepare_msg}
use go_gwiot.Keyc.{Token}

-- Times are nanoseconds since the zero time of Go. The pid of the keycloak actor is asked for again on
-- every connection.
pub record RemoteActor : Type 0 where
  pub test : Bool
  pub has_conn : Bool  -- `ps.conn != nil`
  pub token : Option Token
  pub last_reconnect : ℕ
  pub disable_replay : Bool
  pub is_database_open : Bool
  pub has_db : Bool  -- `ps.db != nil`
  pub quit_open : Bool  -- the channel `ps.quit` is there and not closed

-- `NewRemote` and `DisableReplay`
unfoldable pub new_remote : Bool → RemoteActor
new_remote test = record {
  test = test;
  has_conn = false;
  token = none;
  last_reconnect = 0;
  disable_replay = false;
  is_database_open = false;
  has_db = false;
  quit_open = false;
}

unfoldable pub disable_replay : Bool → RemoteActor → RemoteActor
disable_replay disable ps = record ps { disable_replay = disable }

-- How the request for the address of the keycloak actor ends.
pub data AddressReply : Type 0 where
  no_address : AddressReply
  address : AddressReply
  other_address : AddressReply

-- How the request for a token ends. A nil `*oauth2.Token` is `token_reply none`.
pub data TokenReply : Type 0 where
  no_reply : TokenReply
  token_reply : Option Token → TokenReply
  other_reply : TokenReply

pub data RemoteIn : Type 0 where
  started : RemoteIn
  stopping_pointer : RemoteIn  -- the case `**actor.Stopping`
  reconnect_remote : RemoteIn
  verify_replay : RemoteIn  -- has no case
  new_token : Option Token → RemoteIn
  remote_msg2 : RemoteMsg2 → RemoteIn
  stopping : RemoteIn
  stopped : RemoteIn
  restarting : RemoteIn

pub data RemoteOut : Type 0 where
  publish : Bytes → Bytes → Bytes → RemoteOut  -- topic, header "id", data
  update : Bytes → Bytes → RemoteOut  -- id, data
  close_conn : RemoteOut
  close_quit : RemoteOut
  self_reconnect : RemoteOut
  self_verify_replay : RemoteOut

-- What the world answers while one message is handled.
pub record World : Type 0 where
  pub clock : ℕ
  pub hostname : Bytes
  pub quoted_host : Bytes
  pub has_keycloak_url : Bool  -- `len(keyc.Keycloakurl) > 0`
  pub address_reply : AddressReply
  pub reply : TokenReply
  pub is_connected : Bool  -- `ps.conn.IsConnected()`
  pub still_connected : Bool  -- and again in `sendMSG`
  pub asks_token : Bool  -- `nats.Connect` calls the closure for the JWT
  pub connects : Bool  -- `nats.Connect` succeeds
  pub has_stream : Bool  -- `conn.JetStream()` succeeds
  pub acks : ℕ → Bool  -- `client.PublishMsg` succeeds in round `i`
  pub opens : Bool  -- `ps.db.Open()` succeeds
  pub unix_nano : ℕ

-- `t.Before(now.Add(-d))`
abbrev pub older : ℕ → ℕ → ℕ → Bool
older now d t = ltb (t + d) now

abbrev pub is_connected : World → RemoteActor → Bool
is_connected w ps = ps.has_conn && w.is_connected

-- `ps.token == nil || ps.token.Expiry.Before(time.Now())`
abbrev needs_token : World → RemoteActor → Bool
needs_token w ps = elim ps.token [ none ↦ true | some t ↦ ltb t.expiry w.clock ]

-- `ps.token` after the request; `none` is the return with an error.
abbrev asked_token : World → RemoteActor → RemoteActor × Bool
asked_token w ps = elim w.reply [
  | no_reply ↦ (ps, false)
  | token_reply t ↦ (record ps { token = t }, true)
  | other_reply ↦ (record ps { token = none }, false)
]

-- The part of `connect` under `len(keyc.Keycloakurl) > 0`: the state, and whether it goes on.
unfoldable pub find_token : World → RemoteActor → RemoteActor × Bool
find_token w ps = elim w.address_reply [
  | no_address ↦ (ps, false)
  | other_address ↦ (ps, false)
  | address ↦
      let (ps', went) = if needs_token w ps then asked_token w ps else (ps, true) in
      (ps', went && elim ps'.token [ none ↦ false | some t ↦ true ])
]

-- `connect` of client-nats.go: the closure reads the token, and a nil token panics there.
abbrev connect_nats : World → RemoteActor → Outcome (RemoteActor × Bool)
connect_nats w ps = elim ps.token [
  | none ↦ if w.asks_token then panic else ok (record ps { has_conn = w.connects }, w.connects)
  | some t ↦ ok (record ps { has_conn = w.connects }, w.connects)
]

-- `ps.connect`: the state, and whether it returns no error.
unfoldable pub connect : World → RemoteActor → Outcome (RemoteActor × Bool)
unfolding find_token
connect w ps =
    if w.has_keycloak_url
    then (let (ps', went) = find_token w ps in if went then connect_nats w ps' else ok (ps', false))
    else connect_nats w ps

-- The closing of an open connection at the start of `ps.connect`.
abbrev pub closed_first : World → RemoteActor → List RemoteOut
closed_first w ps = if is_connected w ps then close_conn ∷ [] else []

-- The loop of `sendMSG`: `rounds` rounds are left, and this is round `i`. It ends with whether the
-- last call had no error, and with every call.
unfoldable pub publish_msg : RemoteOut → ℕ → ℕ → (ℕ → Bool) → Bool × List RemoteOut
publish_msg msg zero i acks = (false, [])
publish_msg msg (suc rounds) i acks =
    let rest = publish_msg msg rounds (suc i) acks in
    elim (acks i) [ true ↦ (true, msg ∷ []) | false ↦ (rest.0, msg ∷ rest.1) ]

-- `remoteQueueEvents` and `remoteQueueEventsTest`
abbrev pub topic_of : World → Bool → Bytes
topic_of w true = ascii "TEST/" ++ w.hostname
topic_of w false = ascii "Events.Offline"

-- `sendMSG`, of an actor with a connection.
unfoldable pub send_msg : World → RemoteActor → Bytes → Bool × List RemoteOut
unfolding publish_msg
send_msg w ps content =
    if not w.still_connected || not w.has_stream
    then (false, [])
    else publish_msg (publish (topic_of w ps.test) w.hostname content) 10 0 w.acks

-- `if ps.db != nil && !ps.isDatabaseOpen { … }`
abbrev ensure_open : World → RemoteActor → RemoteActor
ensure_open w ps =
    if ps.has_db && not ps.is_database_open && w.opens
    then record ps { is_database_open = true }
    else ps

-- After an error: the backup, and a new connection if the last one is old.
unfoldable pub backup : World → RemoteActor → Bytes → RemoteActor × List RemoteOut
backup w ps content =
    let ps' = ensure_open w ps in
    (
      ps',
      (if not ps'.disable_replay && ps'.has_db && ps'.is_database_open
            then update (decimal w.unix_nano) content ∷ []
            else [])
          ++ (if older w.clock 40000000000 ps'.last_reconnect then self_reconnect ∷ [] else []),
    )

-- What follows `sendMSG`.
unfoldable pub after_send :
    World → RemoteActor → Bytes → Bool × List RemoteOut → RemoteActor × List RemoteOut
after_send w ps content (true, out) = (ps, out)
after_send w ps content (false, out) =
    let (ps', more) = backup w ps content in (ps', out ++ close_conn ∷ more)

unfoldable pub send_data : World → RemoteActor → Bytes → RemoteActor × List RemoteOut
unfolding after_send
send_data w ps content =
    if not (is_connected w ps)
    then backup w ps content
    else after_send w ps content (send_msg w ps content)

-- What follows a connection that `reconnectRemote` asked for.
abbrev after_connect : RemoteActor × Bool → RemoteActor × List RemoteOut
after_connect (ps, true) = (ps, if not ps.disable_replay then self_verify_replay ∷ [] else [])
after_connect (ps, false) = (ps, if ps.has_conn then close_conn ∷ [] else [])

-- Whether `reconnectRemote` tries to connect.
abbrev pub tries : World → RemoteActor → Bool
tries w ps = not (is_connected w ps) && older w.clock 30000000000 ps.last_reconnect

unfoldable pub reconnect : World → RemoteActor → Outcome (RemoteActor × List RemoteOut)
unfolding connect
reconnect w ps = elim (tries w ps) [
  | true ↦ do done ← connect w (record ps { last_reconnect = w.clock }); ok (after_connect done)
  | false ↦ ok (ps, [])
]

unfoldable pub start : World → RemoteActor → Outcome (RemoteActor × List RemoteOut)
unfolding connect
start w ps = do done ← connect w (record ps { quit_open = true }); ok (done.0, closed_first w ps)

unfoldable pub receive : World → RemoteIn → RemoteActor → Outcome (RemoteActor × List RemoteOut)
unfolding start reconnect send_data
receive w started ps = start w ps
receive w stopping_pointer ps =
    if ps.quit_open then ok (record ps { quit_open = false }, close_quit ∷ []) else panic
receive w reconnect_remote ps = reconnect w ps
receive w verify_replay ps = ok (ps, [])
receive w (new_token t) ps = ok (record ps { token = t }, [])
receive w (remote_msg2 msg) ps = do
  content ← prepare_msg w.quoted_host msg
  ok (send_data w ps content)
receive w stopping ps = ok (ps, close_conn ∷ [])
receive w stopped ps = ok (ps, [])
receive w restarting ps = ok (ps, [])

-- What a panic leaves of the state: the same object is started again.
abbrev pub crashed : World → RemoteIn → RemoteActor → RemoteActor
crashed w started ps = record ps { quit_open = true }
crashed w reconnect_remote ps = record ps { last_reconnect = w.clock }
crashed w _ ps = ps

abbrev after_outcome : RemoteActor → Outcome (RemoteActor × List RemoteOut) → RemoteActor
after_outcome ps (ok (ps', out)) = ps'
after_outcome ps panic = ps

-- The state after one message, and after several.
unfoldable pub after : World → RemoteIn → RemoteActor → RemoteActor
unfolding receive
after w msg ps = after_outcome (crashed w msg ps) (receive w msg ps)

unfoldable pub run : List (World × RemoteIn) → RemoteActor → RemoteActor
run [] ps = ps
run ((w, msg) ∷ steps) ps = run steps (after w msg ps)

-- The message makes the actor try to connect again.
abbrev pub attempts_now : World → RemoteIn → RemoteActor → Bool
attempts_now w reconnect_remote ps = tries w ps
attempts_now w _ ps = false

-- The two tickers of `tickrReconnect`, which starts when `ps.ctx` is set.
unfoldable pub tick : World → RemoteActor → List RemoteOut
tick w ps =
    if not (is_connected w ps) && older w.clock 60000000000 ps.last_reconnect
    then self_reconnect ∷ []
    else []

unfoldable pub tick_verify : World → RemoteActor → List RemoteOut
tick_verify w ps = if not (is_connected w ps) then self_verify_replay ∷ [] else []
