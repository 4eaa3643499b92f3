-- ===== src/Authz/Conditions/Compound.antt =====
-- What a condition means, without exceptions or an order of evaluation, and that the loops compute
-- it.
use gauth_py.Base.{ℕ, ◌≡◌, refl, Bool, true, false, not, ◌&&◌, ◌||◌, arith, ◌==◌, String}
use gauth_py.Core.Exceptions.{ok}
use gauth_py.Authz.Types.{AccessRequest}
use gauth_py.Authz.Conditions.{
  Libraries, op_and, op_or, op_not, Condition, Conditions, time, ip, role, attribute, regex,
  compound, end, also, evaluate_time, evaluate_ip, evaluate_role, evaluate_attribute,
  evaluate_regex, evaluate, evaluate_and, evaluate_or, evaluate_not, compound_init, count,
}

module _ (lib : Libraries) where
  unfoldable mutual
    pub holds : Condition lib → AccessRequest → ℕ → Bool
    holds (time start_time end_time days) req now = evaluate_time start_time end_time days now
    holds (ip networks) req now = evaluate_ip lib networks req
    holds (role roles require_all) req now = evaluate_role roles require_all req
    holds (attribute ss rs xs) req now = evaluate_attribute ss rs xs req
    holds (regex patterns) req now = evaluate_regex lib patterns req
    holds (compound op_and cs) req now = all_hold cs req now
    holds (compound op_or cs) req now = any_holds cs req now
    holds (compound op_not cs) req now = not (any_holds cs req now)

    pub all_hold : Conditions lib → AccessRequest → ℕ → Bool
    all_hold end req now = true
    all_hold (also c cs) req now = holds c req now && all_hold cs req now

    pub any_holds : Conditions lib → AccessRequest → ℕ → Bool
    any_holds end req now = false
    any_holds (also c cs) req now = holds c req now || any_holds cs req now

  -- Each NOT has exactly one part.
  unfoldable mutual
    pub well_formed : Condition lib → Bool
    well_formed (time start_time end_time days) = true
    well_formed (ip networks) = true
    well_formed (role roles require_all) = true
    well_formed (attribute ss rs xs) = true
    well_formed (regex patterns) = true
    well_formed (compound op_and cs) = all_well_formed cs
    well_formed (compound op_or cs) = all_well_formed cs
    well_formed (compound op_not cs) = (count lib cs == 1) && all_well_formed cs

    pub all_well_formed : Conditions lib → Bool
    all_well_formed end = true
    all_well_formed (also c cs) = well_formed c && all_well_formed cs

  mutual
    unfolding evaluate holds well_formed

    evaluate-holds :
        (c : Condition lib) (req : AccessRequest) (now : ℕ)
        → well_formed c ≡ true
        → evaluate lib c req now ≡ ok (holds c req now)
    evaluate-holds (time start_time end_time days) req now h = refl
    evaluate-holds (ip networks) req now h = refl
    evaluate-holds (role roles require_all) req now h = refl
    evaluate-holds (attribute ss rs xs) req now h = refl
    evaluate-holds (regex patterns) req now h = refl
    evaluate-holds (compound op_and cs) req now h = evaluate_and-all_hold cs req now h
    evaluate-holds (compound op_or cs) req now h = evaluate_or-any_holds cs req now h
    evaluate-holds (compound op_not cs) req now h =
        evaluate_not-any_holds cs req now (ground arith) (ground arith)

    evaluate_and-all_hold :
        (cs : Conditions lib) (req : AccessRequest) (now : ℕ)
        → all_well_formed cs ≡ true
        → evaluate_and lib cs req now ≡ ok (all_hold cs req now)
    evaluate_and-all_hold end req now h = refl
    evaluate_and-all_hold (also c cs) req now h = ground (
      arith,
      evaluate-holds c req now (ground arith),
      evaluate_and-all_hold cs req now (ground arith),
    )

    evaluate_or-any_holds :
        (cs : Conditions lib) (req : AccessRequest) (now : ℕ)
        → all_well_formed cs ≡ true
        → evaluate_or lib cs req now ≡ ok (any_holds cs req now)
    evaluate_or-any_holds end req now h = refl
    evaluate_or-any_holds (also c cs) req now h = ground (
      arith,
      evaluate-holds c req now (ground arith),
      evaluate_or-any_holds cs req now (ground arith),
    )

    evaluate_not-any_holds :
        (cs : Conditions lib) (req : AccessRequest) (now : ℕ)
        → count lib cs ≡ 1
        → all_well_formed cs ≡ true
        → evaluate_not lib cs req now ≡ ok (not (any_holds cs req now))
    evaluate_not-any_holds end req now k h = absurd (omega (arith, k))
    evaluate_not-any_holds (also c end) req now k h =
        ground (arith, evaluate-holds c req now (ground arith))
    evaluate_not-any_holds (also c (also d cs)) req now k h = absurd (omega (arith, k))

  compound_init-well_formed :
      (cs : Conditions lib) (operator : String) (c : Condition lib)
      → compound_init lib cs operator ≡ ok c
      → all_well_formed cs ≡ true
      → well_formed c ≡ true
  unfolding compound_init well_formed
  compound_init-well_formed cs operator c h w = ground arith

  -- A compound condition that its constructor accepts, over parts that are made so, never raises:
  -- it answers what its parts mean together, although the loops stop early.
  pub compound_init-evaluate :
      (cs : Conditions lib) (operator : String) (c : Condition lib) (req : AccessRequest) (now : ℕ)
      → compound_init lib cs operator ≡ ok c
      → all_well_formed cs ≡ true
      → evaluate lib c req now ≡ ok (holds c req now)
  compound_init-evaluate cs operator c req now h w =
      evaluate-holds c req now (compound_init-well_formed cs operator c h w)
