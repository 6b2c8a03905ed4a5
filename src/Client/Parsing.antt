-- ===== src/Client/Parsing.antt =====
-- pkg/client/clientProxy.go, parseProxyRequest: what is known of a request that parses.
use task_discovery_service.Prelude.{
  ℕ, ◌<◌, ◌≡◌, ap, subst, Bool, true, false, not, Option, none, some, [], Text, ◌==◌, text_eq,
  if◌then◌else◌, arith,
}
use task_discovery_service.Prelude.Result.{Result, ok, err}
use task_discovery_service.Text.{codes, trim_space, has_prefix}
use task_discovery_service.Text.Trim.{trim_space_idem}
use task_discovery_service.Word.{nonpos, lt64, int64_mod}
use task_discovery_service.Transport.{CentralizedMessage}
use task_discovery_service.Transport.Servers.{Wire}
use task_discovery_service.Client.Proxy.{
  ProxyRequest, trimmed_request, request_of, parse_proxy_request,
}

some-none : {t : Text} → some t ≡ none → ⊥
some-none e = cc

-- What parsing leaves: trimmed texts and a positive capacity.
pub record IsNormal (req : ProxyRequest) : Type 0 where
  pub task_trimmed : trim_space req.task ≡ req.task
  pub address_trimmed : trim_space req.address ≡ req.address
  pub capacity_positive : req.capacity < int64_mod → nonpos req.capacity ≡ false

positive_or_one :
    (c : ℕ) → (if lt64 0 c then c else 1) < int64_mod → nonpos (if lt64 0 c then c else 1) ≡ false
unfolding nonpos lt64
positive_or_one c h = ground arith

trimmed_request-IsNormal :
    (msg : CentralizedMessage)
    → IsNormal (trimmed_request msg (if lt64 0 msg.capacity then msg.capacity else 1))
trimmed_request-IsNormal msg = record {
  task_trimmed = trim_space_idem msg.task;
  address_trimmed = trim_space_idem msg.address;
  capacity_positive = positive_or_one msg.capacity;
}

parsed-IsNormal :
    (b : Bool) (r : ProxyRequest) (e : Text) (x : ProxyRequest × Option Text) (req : ProxyRequest)
    → (x ≡ (req, none) → IsNormal req)
    → (if b then (r, some e) else x) ≡ (req, none)
    → IsNormal req
parsed-IsNormal true r e x req f h = absurd (some-none (ap (λ y. y.1) h))
parsed-IsNormal false r e x req f h = f h

request_of-IsNormal :
    (found : Result Text CentralizedMessage) (req : ProxyRequest)
    → request_of found ≡ (req, none)
    → IsNormal req
request_of-IsNormal (err e) req h = absurd (some-none (ap (λ y. y.1) h))
request_of-IsNormal (ok msg) req h =
    parsed-IsNormal (lt64 msg.capacity 0) _ _ _ req
      (λ e. subst IsNormal (ap (λ y. y.0) e) (trimmed_request-IsNormal msg)) h

pub parse-IsNormal :
    (wire : Wire) (text : Text) (req : ProxyRequest)
    → parse_proxy_request wire text ≡ (req, none)
    → IsNormal req
unfolding parse_proxy_request
parse-IsNormal wire text req h =
    parsed-IsNormal (trim_space text == []) _ _ _ req
      (parsed-IsNormal (not (has_prefix (trim_space text) (codes "{"))) _ _ _ req
        (request_of-IsNormal (wire.unmarshal_message (trim_space text)) req))
      h
