-- ===== src/Guest/Exchange.antt =====
-- vsockClient.send (internal/firecracker/vsock.go) against handleConn (guest-agent/main.go), with
-- firecracker's proxy between them.
use Prim.Native.String.{len}
use text.Mathlib.Text.{starts_with}
use cage.Common.{ℕ, ◌<◌, String, [], ◌∷◌, concat, true, ◌≡◌, arith}
use cage.Common.Exec.{ok}
use cage.Firecracker.Host.{Codec, Host}
use cage.Firecracker.Vsock.{AgentRequest, AgentResponse, accepted, send}
use cage.Guest.Control.{GuestOs, handle, handle_conn, max_line}

module _ {H G : Type 0} (host : Host H) (guest : GuestOs G) (guest_of : H → G)
    (requests : Codec AgentRequest) (responses : Codec AgentResponse) (uds : String) where
  -- The proxy answers CONNECT, hands the agent the line that is written and the host the line that
  -- the agent writes back.
  pub record IsRelayed (req : AgentRequest) (s : H) : Type 0 where
    pub conn : ℕ
    pub opened : H
    pub timed : H
    pub asked : H
    pub greeted : H
    pub sent : H
    pub received : H
    pub greeting : String
    pub line : String
    pub dials : host.dial uds s ≡ (ok conn, opened)
    pub times : host.set_deadline conn 15000 opened ≡ (ok tt, timed)
    pub connects : host.write conn "CONNECT 52000\n" timed ≡ (ok tt, asked)
    pub greets : host.read_line conn asked ≡ (ok greeting, greeted)
    pub accepts : starts_with greeting "OK" ≡ true
    pub sends : host.write conn (concat (requests.marshal req) "\n") greeted ≡ (ok tt, sent)
    pub receives : host.read_line conn sent ≡ (ok line, received)
    pub serves :
        handle_conn guest requests responses (requests.marshal req ∷ []) (guest_of s)
        ≡ (line ∷ [], guest_of (host.close conn received))

  -- JSON carries the request and its response, and the request's line fits the agent's buffer.
  pub record IsCarried (req : AgentRequest) (s : H) : Type 0 where
    pub request_read : requests.unmarshal (requests.marshal req) ≡ ok req
    pub response_read :
        responses.unmarshal (concat (responses.marshal (handle guest req (guest_of s)).0) "\n")
        ≡ ok (handle guest req (guest_of s)).0
    pub fits : len (requests.marshal req) < max_line

  conn_served :
      (req : AgentRequest) (s : H)
      → IsCarried req s
      → handle_conn guest requests responses (requests.marshal req ∷ []) (guest_of s) ≡ (
        concat (responses.marshal (handle guest req (guest_of s)).0) "\n" ∷ [],
        (handle guest req (guest_of s)).1,
      )
  unfolding handle_conn
  conn_served req s c = grind (arith, c.request_read, c.fits)

  -- Where the proxy relays the request and JSON carries it and its response, send gives what the
  -- guest's handle answers to the request, as an error where that answer has one, and the guest is
  -- left as handle leaves it.
  pub send_handles :
      (req : AgentRequest) (s : H)
      → IsRelayed req s
      → IsCarried req s
      → ((send host requests responses uds req s).0
          ≡ accepted host (handle guest req (guest_of s)).0)
        × (guest_of (send host requests responses uds req s).1 ≡ (handle guest req (guest_of s)).1)
  unfolding send
  send_handles req s r c = grind (
    arith,
    conn_served req s c,
    r.dials,
    r.times,
    r.connects,
    r.greets,
    r.accepts,
    r.sends,
    r.receives,
    r.serves,
    c.response_read,
  )
