-- ===== src/Trace/Tests.antt =====
-- Runs of `sqmp_dbg_recv_pkt` (src/shared/sqmp.c).
use squimpchat.Base.{◌≡◌, true, some, [], ◌∷◌, ◌++◌, arith, codes, replicate, zeros, ok}
use squimpchat.Server.Users.{c_string}
use squimpchat.Trace.{dbg_recv_pkt, auth_req}
use squimpchat.Wire.Messages.{Message, asks_login, encode}
use squimpchat.Trace.Shown.{dbg_recv_pkt-encode}

-- Eve's login.
abbrev login : Message
login = asks_login 3 (codes "eve" ++ zeros 29) (replicate 32 7) (replicate 32 6)

dbg_recv_pkt-encode_example :
    dbg_recv_pkt true (encode 1 login ++ 0 ∷ []) ≡ ok (some (auth_req (codes "eve")))
unfolding c_string
dbg_recv_pkt-encode_example = dbg_recv_pkt-encode 1 login (0 ∷ []) (omega arith) (omega arith)
