-- ===== src/Dohupstream/Exchanges.antt =====
-- What an exchange sends and returns.
use zonedns.Prelude.{◌≡◌, ◌↔◌, refl, Option, none, some, arith, nat_eq, Option-cases, inl, inr, ok}
use zonedns.Text.{Str}
use zonedns.Dns.{Msg}
use zonedns.Dohupstream.{Http, status_ok, read_response, exchange}

module _ (http : Http) (url : Str) (m : Msg) where
  open http use {Request, Response}

  -- A response with status 200 and a message in it, to the query under the number 0.
  pub record IsExchanged (answer : Msg) : Type 0 where
    pub request : Request
    pub sent : http.new_request url (record m { id = 0 }) ≡ some request
    pub response : Response
    pub received : http.perform request ≡ some response
    pub status : http.status_code response ≡ status_ok
    pub decoded : Msg
    pub body : http.response_to_msg response ≡ some decoded
    pub restored : answer ≡ record decoded { id = m.id }

  -- An exchange succeeds exactly if the query can be sent under the number 0 and a response with
  -- status 200 carries a message; the answer is that message under the number of the query.
  pub exchange_iff : (answer : Msg) → (exchange http url m ≡ ok answer) ↔ IsExchanged answer
  unfolding exchange read_response
  exchange_iff answer = (
    to (http.new_request url (record m { id = 0 })) refl,
    λ k. ground (arith, k.sent, k.received, k.status, k.body, k.restored),
  )
    where
      received_by :
          (req : Request) (done : Option Response)
          → http.new_request url (record m { id = 0 }) ≡ some req
          → http.perform req ≡ done
          → exchange http url m ≡ ok answer
          → IsExchanged answer
      received_by req none q p h = ground (arith, q, p)
      received_by req (some resp) q p h = elim (Option-cases (http.response_to_msg resp)) [
        | inl n ↦ ground (arith, q, p, n)
        | inr (d, n) ↦ record {
          request = req;
          sent = q;
          response = resp;
          received = p;
          status = ground (arith, q, p, n);
          decoded = d;
          body = n;
          restored = ground (arith, q, p, n);
        }
      ]

      to :
          (built : Option Request)
          → http.new_request url (record m { id = 0 }) ≡ built
          → exchange http url m ≡ ok answer
          → IsExchanged answer
      to none q h = ground (arith, q)
      to (some req) q h = received_by req (http.perform req) q refl h
