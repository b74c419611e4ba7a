-- ===== src/Dohupstream.antt =====
-- internal/dohupstream/dohupstream.go: sending one query over HTTPS. net/http and the encoding of
-- DNS over HTTPS are the interface Http.
pub mod Exchanges
pub mod Mtls
use zonedns.Prelude.{ℕ, not, ◌==◌, if◌then◌else◌, nat_eq, Option, none, some, Result, ok, err}
use zonedns.Text.{Str}
use zonedns.Dns.{Msg}

abbrev pub status_ok : ℕ
status_ok = 200

-- doh.NewRequestWithContext for a POST to a URL, http.Client.Do, the status code of a response,
-- and doh.ResponseToMsg; none is an error.
pub record Http : Type 1 where
  pub Request : Type 0
  pub Response : Type 0
  pub new_request : Str → Msg → Option Request
  pub perform : Request → Option Response
  pub status_code : Response → ℕ
  pub response_to_msg : Response → Option Msg

pub data ExchangeError : Type 0 where
  build_failed do_failed : ExchangeError
  bad_status : ℕ → ExchangeError
  decode_failed : ExchangeError

module _ (http : Http) where
  -- From the response on, for the number of the query.
  unfoldable pub read_response : ℕ → http.Response → Result ExchangeError Msg
  read_response original_id resp =
      if not (http.status_code resp == status_ok)
      then err (bad_status (http.status_code resp))
      else elim (http.response_to_msg resp) [
        | none ↦ err decode_failed
        | some answer ↦ ok (record answer { id = original_id })
      ]

  -- `Exchange` of a client for the URL.
  unfoldable pub exchange : Str → Msg → Result ExchangeError Msg
  unfolding read_response
  exchange url m =
      let original_id = m.id in
      let outbound = record m { id = 0 } in
      elim (http.new_request url outbound) [
        | none ↦ err build_failed
        | some req ↦ elim (http.perform req) [
          | none ↦ err do_failed
          | some resp ↦ read_response original_id resp
        ]
      ]

-- The client as the agent's Upstream, which drops what the error says.
unfoldable pub as_upstream : Http → Str → Msg → Option Msg
as_upstream http url m = elim (exchange http url m) [ ok answer ↦ some answer | err _ ↦ none ]
