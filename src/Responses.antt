-- ===== src/Responses.antt =====
-- src/error_response.c: the short responses that the proxy sends on its own account.
pub mod Size
use concurrent_http_proxy_se.Base.{
  ℕ, ◌+◌, ◌<◌, ltb, length, if◌then◌else◌, Option, none, some, List, [], ◌∷◌, ◌++◌, Status, done,
  failed,
}
use concurrent_http_proxy_se.Bytes.{Bytes, codes}
use concurrent_http_proxy_se.Decimal.{decimal}
use concurrent_http_proxy_se.Sockets.{Os, Trace, write_all}

-- What `snprintf` prints.
unfoldable pub response_text : ℕ → Bytes → Bytes → Bytes
response_text status_code reason body =
    codes "HTTP/1.1 "
    ++ (decimal status_code
        ++ (32
            ∷ (reason
                ++ (13
                    ∷ 10
                    ∷ (codes "Content-Type: text/plain; charset=utf-8"
                        ++ (13
                            ∷ 10
                            ∷ (codes "Content-Length: "
                                ++ (decimal (length body)
                                    ++ (13
                                        ∷ 10
                                        ∷ (codes "Connection: close"
                                            ++ (13 ∷ 10 ∷ 13 ∷ 10 ∷ body)))))))))))

-- `error_response_send` with a reason and a body that are not NULL.
unfoldable pub error_response_send : Os → Trace → ℕ → ℕ → Bytes → Bytes → Status × Trace
error_response_send os t client status_code reason body =
    if ltb (length (response_text status_code reason body)) 512
    then write_all os t client (response_text status_code reason body)
    else (failed, t)
