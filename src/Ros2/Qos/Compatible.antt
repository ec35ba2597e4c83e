-- ===== src/Ros2/Qos/Compatible.antt =====
-- Compatibility as an order on what is offered and what is asked for.
use zenoh_ros2_nostd.Common.{◌≤◌, ◌≡◌, refl, true, arith}
use zenoh_ros2_nostd.Ros2.Qos.{
  Qos, History, Reliability, Durability, best_effort, reliable, volatile, transient_local,
  reliability_value, durability_value, is_compatible,
}

-- What an offer is worth: the lower number of rmw is the stronger promise.
abbrev pub Serves : Qos → Qos → Type 0
Serves offered asked =
    (reliability_value offered.reliability ≤ reliability_value asked.reliability)
    × (durability_value offered.durability ≤ durability_value asked.durability)

abbrev Agree : Qos → Qos → Type 0
Agree p s = (is_compatible p s ≡ true → Serves p s) × (Serves p s → is_compatible p s ≡ true)

abbrev profile : Reliability → Durability → History → Qos
profile a c h = record { reliability = a; durability = c; history = h }

agree :
    (a b : Reliability) (c d : Durability) (h k : History) → Agree (profile a c h) (profile b d k)
unfolding is_compatible reliability_value durability_value
agree best_effort best_effort volatile volatile h k = ((λ e. (omega arith, omega arith)), λ o. refl)
agree best_effort best_effort volatile transient_local h k =
    ((λ e. cc), λ (x, y). absurd (omega arith))
agree best_effort best_effort transient_local volatile h k =
    ((λ e. (omega arith, omega arith)), λ o. refl)
agree best_effort best_effort transient_local transient_local h k =
    ((λ e. (omega arith, omega arith)), λ o. refl)
agree best_effort reliable volatile volatile h k = ((λ e. cc), λ (x, y). absurd (omega arith))
agree best_effort reliable volatile transient_local h k =
    ((λ e. cc), λ (x, y). absurd (omega arith))
agree best_effort reliable transient_local volatile h k =
    ((λ e. cc), λ (x, y). absurd (omega arith))
agree best_effort reliable transient_local transient_local h k =
    ((λ e. cc), λ (x, y). absurd (omega arith))
agree reliable best_effort volatile volatile h k = ((λ e. (omega arith, omega arith)), λ o. refl)
agree reliable best_effort volatile transient_local h k =
    ((λ e. cc), λ (x, y). absurd (omega arith))
agree reliable best_effort transient_local volatile h k =
    ((λ e. (omega arith, omega arith)), λ o. refl)
agree reliable best_effort transient_local transient_local h k =
    ((λ e. (omega arith, omega arith)), λ o. refl)
agree reliable reliable volatile volatile h k = ((λ e. (omega arith, omega arith)), λ o. refl)
agree reliable reliable volatile transient_local h k = ((λ e. cc), λ (x, y). absurd (omega arith))
agree reliable reliable transient_local volatile h k =
    ((λ e. (omega arith, omega arith)), λ o. refl)
agree reliable reliable transient_local transient_local h k =
    ((λ e. (omega arith, omega arith)), λ o. refl)

-- A publisher and a subscriber go together exactly if the publisher promises at least what the
-- subscriber asks for in reliability and in durability, by the numbers that both are announced with;
-- the histories do not matter.
pub is_compatible-Serves :
    (p s : Qos) → (is_compatible p s ≡ true → Serves p s) × (Serves p s → is_compatible p s ≡ true)
is_compatible-Serves p s =
    agree p.reliability s.reliability p.durability s.durability p.history s.history
