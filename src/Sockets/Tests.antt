-- ===== src/Sockets/Tests.antt =====
-- The calls of src/socket_utils.c at work.
use concurrent_http_proxy_se.Base.{◌≡◌, refl, [], ◌∷◌, done, some}
use concurrent_http_proxy_se.Bytes.{Bytes, codes}
use concurrent_http_proxy_se.Sockets.{
  Trace, opened, closed, sent, accepted, refused, write_all, connect_to_host, write_loop,
  connect_each,
}
use concurrent_http_proxy_se.Sockets.Example.{network}
use concurrent_http_proxy_se.Sockets.Connect.{Connected, connect_to_host-Connected}
use concurrent_http_proxy_se.Sockets.Write.{Written, write_all-Written}

abbrev start : Trace
start = opened 3 ∷ []

abbrev text : Bytes
text = codes "Bad Gateway"

-- Two rounds.
two_writes :
    write_all (network [] []) start 3 text
    ≡ (done, sent 3 (codes "eway") ∷ sent 3 (codes "Bad Gat") ∷ start)
unfolding write_all write_loop
two_writes = refl

-- The first address refuses.
second_address :
    connect_to_host (network [] []) start (codes "a") 80
    ≡ (some 4, accepted 4 ∷ opened 4 ∷ closed 4 ∷ refused 4 ∷ opened 4 ∷ start)
unfolding connect_to_host connect_each
second_address = refl

write_all-Written_example : Written 3 text start (write_all (network [] []) start 3 text)
write_all-Written_example = write_all-Written (network [] []) start 3 text

connect_to_host-Connected_example :
    Connected (network [] []) start (connect_to_host (network [] []) start (codes "a") 80)
connect_to_host-Connected_example = connect_to_host-Connected (network [] []) start (codes "a") 80
