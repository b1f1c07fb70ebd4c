-- ===== src/Gate/Presentation/Verifiers.antt =====
-- internal/gate/gate.go, New and facilitatorIdentity: one verifier, and so one breaker, for each
-- facilitator that the rails name. internal/gate/pay.go, verifierFor.
use anteroom.Common.{◌*◌, true, false, none, some, List, [], ◌∷◌, ◌++◌, map, second}
use anteroom.Common.Text.{Str, trim_suffix}
use anteroom.Common.Map.{Map, lookup, insert}
use anteroom.Payment.Wire.{Requirements, Payload}
use anteroom.Payment.Identity.{AuthJson}
use anteroom.Payment.Callback.{
  Callback, Facilitator, Moments, Report, plain, indeterminate, infra, present,
}
use anteroom.Config.Payments.{Rail}
use anteroom.Gate.Presentation.{Verifying}

-- The values of one header in the identity: NUL, the name, NUL, the value.
unfoldable pub identity_values : Str → List Str → Str
identity_values k [] = []
identity_values k (v ∷ vs) = (0 ∷ k) ++ ((0 ∷ v) ++ identity_values k vs)

unfoldable pub identity_headers : Map (List Str) → List Str → Str
identity_headers h [] = []
identity_headers h (k ∷ ks) =
    let rest = identity_headers h ks in
    elim (lookup k h) [ none ↦ rest | some vs ↦ identity_values k vs ++ rest ]

-- facilitatorIdentity; `sort` is sort.Strings.
unfoldable pub facilitator_identity : (List Str → List Str) → Str → Map (List Str) → Str
facilitator_identity sort base h =
    trim_suffix b'/' base ++ identity_headers h (sort (map (λ e. e.0) h))

-- NewCallbackVerifier with a new breaker.
unfoldable pub new_callback : Callback
new_callback = record {
  breaker = record {
    failures = [];
    open_until = 0;
    threshold = 3;
    window = 30 * second;
    cooldown = 30 * second;
  };
  in_flight = 0;
}

-- The verifiers by identity, and the identity of the verifier of each network.
pub record Groups : Type 0 where
  pub groups : Map Callback
  pub of_network : Map Str

unfoldable pub add_rail : (List Str → List Str) → Groups → Rail → Groups
add_rail sort g rail =
    let key = facilitator_identity sort rail.facilitator rail.facilitator_header in
    record {
      groups = elim (lookup key g.groups) [
        | none ↦ insert key new_callback g.groups
        | some c ↦ g.groups
      ];
      of_network = insert rail.network key g.of_network;
    }

unfoldable pub add_rails : (List Str → List Str) → Groups → List Rail → Groups
add_rails sort g [] = g
add_rails sort g (rail ∷ rails) = add_rails sort (add_rail sort g rail) rails

-- The loop of New.
abbrev pub build_groups : (List Str → List Str) → List Rail → Groups
build_groups sort rails = add_rails sort (record { groups = []; of_network = [] }) rails

-- verifierFor, and Verify of the verifier it finds, by the facilitator of that identity. Without a
-- verifier there is no call: the caller has asked.
unfoldable pub verify_on :
    AuthJson
    → (Str → Facilitator)
    → Moments
    → Map Str
    → Map Callback
    → Payload
    → Requirements
    → Map Callback × Report
verify_on auth facilitators m of_network w p req = elim (lookup req.network of_network) [
  | none ↦ (w, plain indeterminate infra 0)
  | some key ↦ elim (lookup key w) [
    | none ↦ (w, plain indeterminate infra 0)
    | some c ↦
        let (c', sent) = present auth (facilitators key) m c p req in (insert key c' w, sent.1)
  ]
]

unfoldable pub verifying :
    AuthJson → (Str → Facilitator) → Moments → Map Str → Verifying (Map Callback)
verifying auth facilitators m of_network = record {
  has_verifier = λ network. elim (lookup network of_network) [ none ↦ false | some key ↦ true ];
  verify = verify_on auth facilitators m of_network;
}
