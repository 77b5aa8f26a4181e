-- ===== src/RemoteMqtt/Connecting.antt =====
-- How the client comes back after a lost connection.
use go_gwiot.Prelude.{◌≡◌, Bool, true, ◌&&◌, ◌||◌, not, [], ◌∷◌, arith, ◌↔◌}
use go_gwiot.RemoteMqtt.{
  RemoteActor, reconnect_remote, request_reconnect, World, reconnect, receive,
}

-- There is a token to connect with, or none is needed.
abbrev pub has_token : World → RemoteActor → Bool
has_token w ps =
    not ps.has_jwt_conf || ps.has_token_source && w.kept_token || w.new_token_source && w.new_token

-- A reconnection tells the remote actor, and does nothing else to it, exactly when the connection was not
-- open, a token was there or none was needed, the connection succeeded, and there is a parent.
pub receive-reconnect_iff :
    (w : World) (ps : RemoteActor)
    → ((receive w reconnect_remote ps).1 ≡ request_reconnect ∷ []) ↔ (
        (not (ps.has_client && w.is_connection_open)
          && has_token w ps
          && w.connects
          && w.has_parent)
        ≡ true)
unfolding receive reconnect
receive-reconnect_iff w ps = ground arith
