-- ===== src/Tests/App.antt =====
-- The AMF on a request.
use proto_test.Base.{◌+◌, ◌≡◌, [], ◌∷◌, ◌++◌, length, none, canceled, eof, ok, err}
use proto_test.App.Amf.{cancelled, received, handle_session, stopped, accepted, refused, run_loop}
use proto_test.App.Amf.Loop.{
  receives, replies, closed_after, at_error, handle_session-replies, new, failed_once,
  run_loop-AllGoOn,
}
use proto_test.Tests.{request_bytes}

handle_session-replies_example :
    handle_session
      (ok tt)
      (receives (request_bytes ∷ ((1 ∷ []) ∷ [])) ++ (received (err eof) ∷ (cancelled ∷ [])))
    ≡ closed_after (replies (request_bytes ∷ ((1 ∷ []) ∷ [])))
handle_session-replies_example =
    handle_session-replies (request_bytes ∷ ((1 ∷ []) ∷ [])) (received (err eof)) (cancelled ∷ [])
      (at_error eof)

run_loop-AllGoOn_example :
    let r = run_loop ((accepted 1 ∷ (refused eof none ∷ [])) ++ (stopped canceled ∷ [])) in
    let rest = run_loop (stopped canceled ∷ []) in
    (r.returns ≡ rest.returns)
    × (r.listener_closes ≡ rest.listener_closes)
    × (length r.sessions + r.sleeps ≡ 2 + (length rest.sessions + rest.sleeps))
run_loop-AllGoOn_example =
    run_loop-AllGoOn (accepted 1 ∷ (refused eof none ∷ [])) (stopped canceled ∷ [])
      (new 1, (failed_once eof, tt))
