-- ===== src/Topology/Tests.antt =====
-- A host whose bridge stands on a bond of two ports, and the theorems at it.
use base_line_prox.Base.{◌≡◌, refl, String, [], ◌∷◌, codes_eq, string_eq, nat_eq}
use base_line_prox.Interfaces.Data.{Text}
use base_line_prox.Base.Dict.{Dict, lookup, insert}
use base_line_prox.Base.Text.{codes}
use base_line_prox.Base.Lines.{words}
use base_line_prox.Topology.Stanzas.{Stanza, Stanzas, underlying_physical}
use base_line_prox.Topology.Walk.{TargetCandidate, is_static, candidate_of, target, derive}
use base_line_prox.Topology.Unique.{IsRight, derive_never_guesses}

abbrev stanza_of : String → String → Dict Text Text → Stanza
stanza_of name method options = record {
  name = codes name;
  family = codes "inet";
  method = codes method;
  options = options;
  lines = [];
  source_path = [];
  line_start = 0;
  line_end = 0;
}

abbrev port : String → Stanza
port name = stanza_of name "manual" []

abbrev bond0 : Stanza
bond0 = stanza_of "bond0" "manual" ((codes "bond-slaves", codes "eno1 eno2") ∷ [])

abbrev vmbr0 : Stanza
vmbr0 =
    stanza_of "vmbr0" "static"
      ((codes "address", codes "192.0.2.2/24") ∷ (codes "bridge-ports", codes "bond0") ∷ [])

abbrev host : Stanzas
host =
    (codes "eno1", port "eno1")
    ∷ (codes "eno2", port "eno2")
    ∷ (codes "bond0", bond0)
    ∷ (codes "vmbr0", vmbr0)
    ∷ []

abbrev bridge_target : TargetCandidate
bridge_target = candidate_of host (codes "vmbr0") vmbr0

derives : derive is_static host (codes "eno2") ≡ target bridge_target
unfolding derive lookup insert codes_eq nat_eq string_eq words
derives = refl

stands_on : underlying_physical host (codes "vmbr0") ≡ codes "eno1" ∷ codes "eno2" ∷ []
unfolding underlying_physical lookup codes_eq nat_eq string_eq words
stands_on = refl

derive_never_guesses_example :
    IsRight is_static host (codes "eno2") (derive is_static host (codes "eno2"))
derive_never_guesses_example = derive_never_guesses is_static host (codes "eno2")
