-- ===== src/Connection/Stream/Verdict.antt =====
-- What a session makes of the bytes that a client sends.
use scalable_tcp_server.Base.{ℕ, suc, ◌≡◌, refl, List, length, All, Outcome, arith}
use scalable_tcp_server.Word.{Host, IsByte}
use scalable_tcp_server.Auth.{LoginRequest}
use scalable_tcp_server.Connection.{Session}
use scalable_tcp_server.Connection.Stream.{Served, serve}
use scalable_tcp_server.Connection.Stream.Frame.{IsWaiting}
use scalable_tcp_server.Connection.Stream.Judged.{Verdict, waits, stops, refuses, Judged, judged}
use scalable_tcp_server.Connection.Stream.Ends.{Ends, serve-Judged}

-- What is left of a session tells the verdict.
Ends-unique :
    (v v' : Verdict) (s : Session) (o : Outcome Served) → Ends v s o → Ends v' s o → v ≡ v'
Ends-unique waits waits s o h h' = refl
Ends-unique waits stops s o (t, rest, e, up, _) (t', rest', e', shut, _) = cc
Ends-unique waits (refuses x) s o (t, rest, e, up, _) h' = cc
Ends-unique stops waits s o (t, rest, e, shut, _) (t', rest', e', up, _) = cc
Ends-unique stops stops s o h h' = refl
Ends-unique stops (refuses x) s o (t, rest, e, shut, _) h' = cc
Ends-unique (refuses x) waits s o h (t, rest, e, up, _) = cc
Ends-unique (refuses x) stops s o h (t, rest, e, shut, _) = cc
Ends-unique (refuses x) (refuses y) s o h h' = cc

module _ (host : Host) (deserialize : List ℕ → Outcome LoginRequest) (now : ℕ) where
  -- Whatever bytes a client sends to an open session that waits for a length, there is one verdict on
  -- them, and no other, and reading them ends within a round for each byte and one more as it says:
  -- after packets that the constructor takes, a length above the limit has stopped the session, which
  -- told the server once; or a packet that the constructor refuses has let its exception out of the
  -- handler; or too few bytes are left, and the session is open, with its logins, queue, transmitted
  -- packets and idle timer as before.
  pub serve-Ends :
      (bytes : List ℕ) (s : Session)
      → All IsByte bytes
      → IsWaiting s
      → (v : Verdict) × Judged host v bytes
        × ((v' : Verdict) → Judged host v' bytes → v' ≡ v)
        × Ends v s (serve host deserialize now (suc (length bytes)) bytes s)
  serve-Ends bytes s are w =
      let read = serve host deserialize now (suc (length bytes)) bytes s in
      let ends = λ (v : Verdict) (j : Judged host v bytes).
        serve-Judged host deserialize now (suc (length bytes)) s j are (omega arith) w in
      let (v, j) = judged host (length bytes) bytes (omega arith) are in
      (v, j, (λ v' j'. Ends-unique v' v s read (ends v' j') (ends v j)), ends v j)
