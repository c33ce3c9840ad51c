-- ===== src/Ga/Evolvable/Inherit.antt =====
-- internal/saas/ga/sigmoid_dca_evolvable.go: Crossover and Mutate on legal chromosomes.
use trandingnok.Base.{◌≡◌, refl, ◌⊎◌, inl, inr, Bool-cases}
use trandingnok.Float.{IsOrdered, Float64, ◌≺◌, lit}
use trandingnok.Ga.Random.{Rand}
use trandingnok.Quant.Genome.{Chromosome}
use trandingnok.Quant.Genome.Legal.{Within, IsLegal, clamp_chromosome_legal}
use trandingnok.Ga.Evolvable.{choose_field, crossover}

-- One of two.
abbrev pub OneOf : {R : Type 0} → R → R → R → Type 0
OneOf x y z = (z ≡ x) ⊎ (z ≡ y)

OneOf-Within :
    {R : Type 0} ⦃f : Float64 R⦄ {lo hi x y z : R}
    → OneOf x y z
    → Within lo hi x
    → Within lo hi y
    → Within lo hi z
OneOf-Within (inl e) p q = rw e p
OneOf-Within (inr e) p q = rw e q

module _ {R G : Type 0} ⦃f : Float64 R⦄ (rnd : Rand G R) where
  choose_field-OneOf : (x y : R) (g : G) → OneOf x y (choose_field rnd x y g).0
  unfolding choose_field
  choose_field-OneOf x y g = elim (Bool-cases ((rnd.float64 g).0 ≺ lit 5 1)) [
    | inl below ↦ inr (rw below refl)
    | inr above ↦ inl (rw above refl)
  ]

  -- For every generator, the child of two legal parents is legal, and it inherits each gene
  -- unchanged from one of the two: the final clamp does nothing.
  pub crossover-OneOf :
      (ord : IsOrdered R) (p1 p2 : Chromosome R) (g : G)
      → IsLegal p1
      → IsLegal p2
      → let child = (crossover rnd p1 p2 g).0 in
        IsLegal child
        × OneOf p1.dca_drop_pct p2.dca_drop_pct child.dca_drop_pct
        × OneOf p1.sigmoid_sensitivity p2.sigmoid_sensitivity child.sigmoid_sensitivity
        × OneOf p1.stop_loss_threshold p2.stop_loss_threshold child.stop_loss_threshold
  unfolding crossover
  crossover-OneOf ord p1 p2 g (a1, b1, c1) (a2, b2, c2) =
      let (x, g1) = choose_field rnd p1.dca_drop_pct p2.dca_drop_pct g in
      let (y, g2) = choose_field rnd p1.sigmoid_sensitivity p2.sigmoid_sensitivity g1 in
      let (z, g3) = choose_field rnd p1.stop_loss_threshold p2.stop_loss_threshold g2 in
      let dx = choose_field-OneOf p1.dca_drop_pct p2.dca_drop_pct g in
      let dy = choose_field-OneOf p1.sigmoid_sensitivity p2.sigmoid_sensitivity g1 in
      let dz = choose_field-OneOf p1.stop_loss_threshold p2.stop_loss_threshold g2 in
      let raw : Chromosome R = record {
        dca_drop_pct = x;
        sigmoid_sensitivity = y;
        stop_loss_threshold = z;
      } in
      let legal : IsLegal raw =
        (OneOf-Within dx a1 a2, OneOf-Within dy b1 b2, OneOf-Within dz c1 c2) in
      rw (clamp_chromosome_legal ord raw legal) (legal, dx, dy, dz)
