-- ===== src/RemoteMqtt/Lost.antt =====
-- The client's answer as the remote actor of internal/remote reads it.
use go_gwiot.Prelude.{
  ◌≡◌, ap, ◌∙◌, Bool, true, false, ◌||◌, not, List, [], ◌∷◌, ◌++◌, Outcome, ok, ◌>>=◌,
  if◌then◌else◌,
}
use go_gwiot.Prelude.Bytes.{Bytes}
use go_gwiot.Remote.Prepare.{RemoteMsg2, prepare_msg}
use go_gwiot.Remote.Replay
use go_gwiot.Remote.Replay.{SendReply, request_error, msg_error, acked}
use go_gwiot.Remote.Actor as Remote
use go_gwiot.Remote.Actor.{remote_msg2, is_request_error}
use go_gwiot.Remote.Actor.Backup.{send_msg-handed}
use go_gwiot.RemoteMqtt.{
  RemoteActor, send_data, RemoteOut, publish, respond_ack, respond_error, World, send_msg, receive,
  answer, wait_token, topic_of,
}
use go_gwiot.RemoteMqtt.Sending.{answer-one}

-- How the request of the remote actor ends, by what the client sends.
abbrev pub reply_of : List RemoteOut → SendReply
reply_of [] = request_error
reply_of (respond_ack ∷ out) = acked
reply_of (respond_error ∷ out) = msg_error
reply_of (o ∷ out) = reply_of out

not_sent :
    (w : World) (ps : RemoteActor) (content : Bytes)
    → (not ps.has_client || not w.is_connection_open) ≡ true
    → w.has_sender ≡ true
    → (receive w (send_data content) ps).1 ≡ respond_error ∷ []
unfolding receive send_msg
not_sent w ps content q s =
    ap
      (λ b.
        let r =
          if◌then◌else◌ {A = Bool × List RemoteOut} b (false, [])
            (wait_token 10 0 w.waits, publish (topic_of w ps.test) content ∷ []) in
        r.1 ++ answer w r.0)
      q
    ∙ answer-one w false s

-- A new message that comes while the remote actor counts as connected, but the client has no open
-- connection, is lost: the client publishes nothing and answers with an error, the remote actor does
-- not look at that answer, and keeps nothing.
pub receive-lost :
    (wc : World) (client : RemoteActor) (w : Remote.World) (ps : Remote.RemoteActor)
    (msg : RemoteMsg2) (content : Bytes)
    → ps.is_connected ≡ true
    → (not client.has_client || not wc.is_connection_open) ≡ true
    → wc.has_sender ≡ true
    → prepare_msg w.quoted_host msg ≡ ok content
    → w.reply ≡ reply_of (receive wc (send_data content) client).1
    → ((receive wc (send_data content) client).1 ≡ respond_error ∷ [])
      × (Remote.receive w (remote_msg2 msg) ps
          ≡ ok (ps, record { effects = Replay.send_data content msg_error ∷ []; self_sent = [] }))
unfolding Remote.receive
receive-lost wc client w ps msg content c n s p r =
    let out = not_sent wc client content n s in
    let reply : w.reply ≡ msg_error = r ∙ ap reply_of out in
    (
      out,
      ap (λ (x : Outcome Bytes). x >>= λ y. ok (Remote.send_msg w y ps)) p
          ∙ ap ok (
              send_msg-handed w ps content c (ap is_request_error reply)
              ∙ ap (λ x. (ps, record { effects = Replay.send_data content x ∷ []; self_sent = [] }))
                  reply),
    )
