-- ===== src/Dht/Registry.antt =====
-- pkg/dht/registry.go: the listen address that a user may shorten to a port, and the registry over
-- the network, with what Find answers as an argument. A method runs as one step.
pub mod ListenAddr
pub mod Cursor
use task_discovery_service.Prelude.{
  ℕ, Bool, true, false, ◌&&◌, Option, none, some, List, [], ◌∷◌, Text, ◌==◌, text_eq, if◌then◌else◌,
  leb, length, get_elem?, ◌++◌,
}
use task_discovery_service.Prelude.Result.{Result, ok, err}
use task_discovery_service.Assoc.{Assoc, lookup, insert}
use task_discovery_service.Text.{codes, trim_space}
use task_discovery_service.Word.{add64, sub64, rem64}

abbrev pub all_digits : Text → Bool
all_digits [] = true
all_digits (c ∷ s) = leb b'0' c && leb c b'9' && all_digits s

unfoldable pub normalize_listen_addr : Text → Text
normalize_listen_addr listen_addr =
    let addr = trim_space listen_addr in
    if addr == [] then addr else if all_digits addr then b':' ∷ addr else addr

pub record DhtRegistry : Type 0 where
  pub round_robin_cursor : Assoc Text ℕ
  pub reg_count : ℕ
  pub query_count : ℕ
  pub error_count : ℕ

abbrev pub new_dht_registry : DhtRegistry
new_dht_registry = record {
  round_robin_cursor = [];
  reg_count = 0;
  query_count = 0;
  error_count = 0;
}

abbrev pub cursor_or_zero : Option ℕ → ℕ
cursor_or_zero none = 0
cursor_or_zero (some n) = n

-- Register, with the error that Store returned, if any.
unfoldable pub register_dht : Option Text → DhtRegistry → Option Text × DhtRegistry
register_dht none r = (none, record r { reg_count = add64 r.reg_count 1 })
register_dht (some e) r =
    (some (codes "dht store: " ++ e), record r { error_count = add64 r.error_count 1 })

-- `none` is an index out of range.
abbrev pub picked : Option Text → Option (Result Text Text)
picked none = none
picked (some addr) = some (ok addr)

-- The address at the cursor.
unfoldable pub next_address :
    Text → List Text → DhtRegistry → Option (Result Text Text) × DhtRegistry
next_address task addrs r =
    let cursor = add64 (cursor_or_zero (lookup task r.round_robin_cursor)) 1 in
    let r' = record r { round_robin_cursor = insert task cursor r.round_robin_cursor } in
    (picked (get_elem? addrs (rem64 (sub64 cursor 1) (length addrs))), r')

abbrev with_query : DhtRegistry → DhtRegistry
with_query r = record r { query_count = add64 r.query_count 1 }

unfoldable pub query :
    Text → Result Text (List Text) → DhtRegistry → Option (Result Text Text) × DhtRegistry
query task (err e) r =
    (some (err (codes "dht find: " ++ e)), record r { error_count = add64 r.error_count 1 })
query task (ok []) r = (some (ok []), with_query r)
query task (ok (a ∷ as')) r = next_address task (a ∷ as') (with_query r)

abbrev query_all : Result Text (List Text) → DhtRegistry → Result Text (List Text) × DhtRegistry
query_all (err e) r =
    (err (codes "dht find: " ++ e), record r { error_count = add64 r.error_count 1 })
query_all (ok addrs) r = (ok addrs, with_query r)
