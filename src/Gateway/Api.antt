-- ===== src/Gateway/Api.antt =====
-- What the gateways of src/common/src/net/gateway.rs share: their calls, and how
-- with_connection_timeout and connect_with_timeout of src/proto/src/taskmanager_impl.rs and
-- src/proto/src/coordinator_impl.rs, which are the same, make a client. A panic is `none`.
use lightflus.Base.{ℕ, Bool, Option, none, some, List, [], ◌∷◌, Str, Result, if◌then◌else◌, or_else}
use lightflus.Proto.Ids.{HostAddr, as_uri}

-- What is taken from tonic and from a generated client C of requests Q with answers R: whether an
-- address parses as that of an endpoint, how a client of it is made, without waiting for a
-- connection or with, and its calls, each with a timeout where one is set. N is the state of the
-- network, and S a status.
pub record RpcApi (C Q R S N : Type 0) : Type 0 where
  pub parses : Str → Bool
  pub connect_lazy : Str → ℕ → C
  pub connect : Str → ℕ → N → Option C × N
  pub call : C → Q → Option ℕ → N → Result S R × N

module _ {C Q R S N : Type 0} (api : RpcApi C Q R S N) where
  open api use {parses, connect_lazy, connect, call}

  -- with_connection_timeout, which panics on an address that does not parse
  unfoldable pub with_connection_timeout : Str → ℕ → Option C
  with_connection_timeout dst timeout = if parses dst then some (connect_lazy dst timeout) else none

  -- connect_with_timeout, for which such an address is an error like any other
  unfoldable pub connect_with_timeout : Str → ℕ → N → Option C × N
  connect_with_timeout dst timeout net = if parses dst then connect dst timeout net else (none, net)

  -- Option::get_or_insert_with: the client that is there, or one that is made
  unfoldable pub client_of : Option C → HostAddr → ℕ → Option C
  unfolding as_uri with_connection_timeout
  client_of inner host_addr timeout =
      or_else inner (with_connection_timeout (as_uri host_addr) timeout)

  -- requests to one client, one after the other, each with its timeout
  unfoldable pub calls : (Q → Option ℕ) → C → List Q → N → List (Result S R) × N
  calls timeout client [] net = ([], net)
  calls timeout client (q ∷ qs) net =
      let r = call client q (timeout q) net in
      let rest = calls timeout client qs r.1 in (r.0 ∷ rest.0, rest.1)
