-- ===== src/Tests/Containers.antt =====
-- A docker that lists no network and makes it.
use kollaps.Prelude.{◌≡◌, sym, ◌∙◌, true, Option, none, some, List, refl}
use Prim.Native.String.{String}
use text.Mathlib.Text.{◌==◌}
use text.Mathlib.TextPositions.{eq_refl}
use text.Mathlib.TextEquality.{eq_iff}
use kollaps.Netgraph.Link.{VertexEq}
use kollaps.Dockhelper.Helper.{Texts, gives, init}

abbrev pub SameCall : String → String → Type 0
SameCall s t = (s == t) ≡ true

pub SameCall-sym : (s t : String) → SameCall s t → SameCall t s
SameCall-sym s t h = let e = (eq_iff s t).0 h in (eq_iff t s).1 (sym e)

pub SameCall-trans : (s t u : String) → SameCall s t → SameCall t u → SameCall s u
SameCall-trans s t u h k = (eq_iff s u).1 ((eq_iff s t).0 h ∙ (eq_iff t u).0 k)

abbrev pub by_text : VertexEq String
by_text = record {
  beq = λ s t. s == t;
  beq_refl = eq_refl;
  beq_sym = SameCall-sym;
  beq_trans = SameCall-trans;
}

plain : Texts
plain = record { trim = λ s. s; is_empty = λ s. s == ""; number = λ s. none; address = λ s. some s }

silent_docker : List String → Option String
silent_docker words = some ""

-- The network is made, and its name is given.
starts : init plain silent_docker by_text "eth0" "10.0.0.0/24" "10.0.0.1" ≡ gives "kollaps_ipvlan"
unfolding init silent_docker plain
starts = refl
