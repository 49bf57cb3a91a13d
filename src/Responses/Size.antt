-- ===== src/Responses/Size.antt =====
-- How long the responses of src/error_response.c are.
use concurrent_http_proxy_se.Base.{
  ℕ, ◌+◌, ◌≤◌, ◌<◌, ◌≡◌, refl, arith, lt→ltb, length, length-append, ◌∷◌, ◌++◌,
}
use concurrent_http_proxy_se.Bytes.{Bytes, codes}
use concurrent_http_proxy_se.Decimal.{decimal, length-decimal}
use concurrent_http_proxy_se.Responses.{response_text, error_response_send}
use concurrent_http_proxy_se.Sockets.{Os, Trace, write_all}

length-response_text :
    (code : ℕ) (reason body : Bytes)
    → code < 1000
    → length reason + length body ≤ 400
    → length (response_text code reason body) < 512
unfolding response_text
length-response_text code reason body three short = omega (
  arith,
  length-decimal 2 code three,
  length-decimal 2 (length body) (omega (arith, short)),
  length-append (decimal code) (32 ∷ (reason ++ tail)),
  length-append reason tail,
  length-append (decimal (length body))
      (13 ∷ 10 ∷ (codes "Connection: close" ++ (13 ∷ 10 ∷ 13 ∷ 10 ∷ body))),
)
  where
    tail : Bytes
    tail =
        13
        ∷ 10
        ∷ (codes "Content-Type: text/plain; charset=utf-8"
            ++ (13
                ∷ 10
                ∷ (codes "Content-Length: "
                    ++ (decimal (length body)
                        ++ (13 ∷ 10 ∷ (codes "Connection: close" ++ (13 ∷ 10 ∷ 13 ∷ 10 ∷ body)))))))

-- A response with a status code of three digits at most, and with a reason and a body that have
-- together no more than 400 bytes, fits the buffer of error_response_send: it is written as a whole.
pub error_response_send_fits :
    (os : Os) (t : Trace) (client code : ℕ) (reason body : Bytes)
    → code < 1000
    → length reason + length body ≤ 400
    → error_response_send os t client code reason body
      ≡ write_all os t client (response_text code reason body)
unfolding error_response_send
error_response_send_fits os t client code reason body three short =
    rw
      (lt→ltb (length (response_text code reason body)) 512
        (length-response_text code reason body three short))
      refl
