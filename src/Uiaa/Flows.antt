-- ===== src/Uiaa/Flows.antt =====
-- The loop over the flows at the end of `try_auth`, against membership in lists.
use grapevine.Prelude.{
  true, List, [], ◌∷◌, ◌≡◌, refl, sym, subst, ◌∙◌, inl, inr, Bool-cases, ==_iff, ==_refl, ap, arith,
  List-Eq, ℕ-Eq,
}
use mathlib.Core.List.{Memᴰ}
use grapevine.Uiaa.{
  AuthType, password, registration_token, dummy, other, same_stage, has_stage, flow_completed,
  any_completed,
}

-- Every stage of the flow is among the completed ones.
abbrev pub Completes : List AuthType → List AuthType → Type 0
Completes completed flow = (stage : AuthType) → Memᴰ stage flow → Memᴰ stage completed

same_stage_sound : (a b : AuthType) → same_stage a b ≡ true → a ≡ b
unfolding same_stage
same_stage_sound password password h = refl
same_stage_sound registration_token registration_token h = refl
same_stage_sound dummy dummy h = refl
same_stage_sound (other a) (other b) h = ap other ((==_iff a b).0 h)
same_stage_sound _ _ h = ground arith

same_stage_refl : (a : AuthType) → same_stage a a ≡ true
unfolding same_stage
same_stage_refl password = refl
same_stage_refl registration_token = refl
same_stage_refl dummy = refl
same_stage_refl (other a) = ==_refl a

has_stage-Mem :
    (completed : List AuthType) (stage : AuthType)
    → has_stage completed stage ≡ true
    → Memᴰ stage completed
unfolding has_stage
has_stage-Mem [] stage h = ground arith
has_stage-Mem (c ∷ completed) stage h = elim (Bool-cases (same_stage c stage)) [
  | inl same ↦ Memᴰ.head (sym (same_stage_sound c stage same))
  | inr apart ↦ Memᴰ.tail (has_stage-Mem completed stage (ground (arith, apart, h)))
]

Mem-has_stage :
    (completed : List AuthType) (stage : AuthType)
    → Memᴰ stage completed
    → has_stage completed stage ≡ true
unfolding has_stage
Mem-has_stage [] stage m = elim m [ ]
Mem-has_stage (c ∷ completed) stage (Memᴰ.head same) =
    let found : same_stage c stage ≡ true = ap (λ x. same_stage c x) same ∙ same_stage_refl c in
    ground (arith, found)
Mem-has_stage (c ∷ completed) stage (Memᴰ.tail later) =
    ground (arith, Mem-has_stage completed stage later)

flow_completed-Completes :
    (completed flow : List AuthType)
    → flow_completed completed flow ≡ true
    → Completes completed flow
unfolding flow_completed
flow_completed-Completes completed [] h stage m = elim m [ ]
flow_completed-Completes completed (s ∷ flow) h stage (Memᴰ.head same) =
    has_stage-Mem completed stage (ap (λ x. has_stage completed x) same ∙ ground (arith, h))
flow_completed-Completes completed (s ∷ flow) h stage (Memᴰ.tail later) =
    flow_completed-Completes completed flow (ground (arith, h)) stage later

Completes-flow_completed :
    (completed flow : List AuthType)
    → Completes completed flow
    → flow_completed completed flow ≡ true
unfolding flow_completed
Completes-flow_completed completed [] all = refl
Completes-flow_completed completed (s ∷ flow) all = ground (
  arith,
  Mem-has_stage completed s (all s (Memᴰ.head refl)),
  Completes-flow_completed completed flow (λ stage m. all stage (Memᴰ.tail m)),
)

-- any_completed finds a flow with all stages completed, and misses none.
pub any_completed-Completes :
    (completed : List AuthType) (flows : List (List AuthType))
    → any_completed completed flows ≡ true
    → (flow : List AuthType) × Memᴰ flow flows × Completes completed flow
unfolding any_completed
any_completed-Completes completed [] h = ground arith
any_completed-Completes completed (f ∷ flows) h = elim (Bool-cases (flow_completed completed f)) [
  | inl all ↦ (f, Memᴰ.head refl, flow_completed-Completes completed f all)
  | inr some_left ↦
      let (flow, m, all) = any_completed-Completes completed flows (ground (arith, some_left, h)) in
      (flow, Memᴰ.tail m, all)
]

pub Completes-any_completed :
    (completed : List AuthType) (flows : List (List AuthType)) (flow : List AuthType)
    → Memᴰ flow flows
    → Completes completed flow
    → any_completed completed flows ≡ true
unfolding any_completed
Completes-any_completed completed [] flow m all = elim m [ ]
Completes-any_completed completed (f ∷ flows) flow (Memᴰ.head same) all = ground (
  arith,
  Completes-flow_completed completed f
      (λ stage m. all stage (subst (λ x. Memᴰ stage x) (sym same) m)),
)
Completes-any_completed completed (f ∷ flows) flow (Memᴰ.tail later) all =
    ground (arith, Completes-any_completed completed flows flow later all)
