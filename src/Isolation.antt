-- ===== src/Isolation.antt =====
-- The pool of network namespaces (src/system/NetworkNamespace.cpp) and the isolation of the threads
-- of a Faaslet (src/faaslet/Faaslet.cpp). A namespace is the number in its name; the vector of the
-- pool is a list whose head is the back of the vector. Entering and leaving a namespace are system
-- calls, of which the model has whether they succeed.
use faasm.Prelude.{
  ℕ, zero, suc, Bool, true, false, ◌&&◌, not, Option, none, some, List, [], ◌∷◌, ◌==◌, Result, ok,
  err, if◌then◌else◌, ◌||◌,
}
pub mod Claims
pub mod Leaks

pub data Error : Type 0 where
  invalid_max_net_namespaces namespaces_run_out cannot_join_namespace : Error

-- The settings MAX_NET_NAMESPACES, and whether NETNS_MODE is "off".
pub record Config : Type 0 where
  pub max_net_ns : ℕ
  pub net_ns_off : Bool

pub record Pool : Type 0 where
  pub namespaces : List ℕ
  pub namespaces_initialised : Bool

-- `returnNetworkNamespace`.
unfoldable pub return_network_namespace : Config → ℕ → Pool → Pool
return_network_namespace c ns p =
    if c.net_ns_off then p else record p { namespaces = ns ∷ p.namespaces }

-- The names from 0, the last one at the back.
unfoldable pub names : ℕ → List ℕ
names zero = []
names (suc n) = n ∷ names n

abbrev pub is_empty : List ℕ → Bool
is_empty [] = true
is_empty (x ∷ xs) = false

-- The pool with its namespaces made, or the exception when there are none to make.
abbrev pub initialise : Config → Pool → Bool → Result Error Pool
initialise c p false = ok p
initialise c p true =
    if c.max_net_ns == 0
    then err invalid_max_net_namespaces
    else ok (record { namespaces = names c.max_net_ns; namespaces_initialised = true })

abbrev pub take_back : Bool → Pool → List ℕ → Result Error ℕ × Pool
take_back off p [] = (err namespaces_run_out, p)
take_back off p (ns ∷ rest) = (ok ns, if off then p else record p { namespaces = rest })

abbrev pub claim_from : Config → Pool → Result Error Pool → Result Error ℕ × Pool
claim_from c p (err e) = (err e, p)
claim_from c p (ok p') = take_back c.net_ns_off p' p'.namespaces

-- `claimNetworkNamespace`.
unfoldable pub claim_network_namespace : Config → Pool → Result Error ℕ × Pool
unfolding names
claim_network_namespace c p =
    claim_from c p (initialise c p (is_empty p.namespaces && not p.namespaces_initialised))

-- The host's pool, the threads that are isolated, and the namespace that the Faaslet has.
pub record Faaslet : Type 0 where
  pub pool : Pool
  pub isolated_threads : List ℕ
  pub ns : Option ℕ

abbrev pub member : ℕ → List ℕ → Bool
member k [] = false
member k (a ∷ rest) = (a == k) || member k rest

module _ (c : Config) (joins : ℕ → Bool) where
  abbrev pub join : ℕ → Faaslet → Result Error ℕ × Pool → Option Error × Faaslet
  join thread f (err e, p) = (some e, record f { pool = p })
  join thread f (ok ns, p) =
      if c.net_ns_off || joins ns
      then (none, record { pool = p; isolated_threads = thread ∷ f.isolated_threads; ns = some ns })
      else (some cannot_join_namespace, record f { pool = p; ns = some ns })

  -- What `Faaslet::executeTask` does on a thread, and what it throws, before the module's own `executeTask`.
  unfoldable pub isolate_thread : ℕ → Faaslet → Option Error × Faaslet
  unfolding claim_network_namespace
  isolate_thread thread f =
      if member thread f.isolated_threads
      then (none, f)
      else join thread f (claim_network_namespace c f.pool)

-- `Faaslet::shutdown`, when the thread can leave its namespace.
abbrev give_back : Config → Faaslet → Option ℕ → Faaslet
give_back c f none = f
give_back c f (some ns) = record f { pool = return_network_namespace c ns f.pool }

unfoldable pub shutdown : Config → Faaslet → Faaslet
unfolding return_network_namespace
shutdown c f = give_back c f f.ns
