-- ===== src/Retcodes/Laws.antt =====
-- The tables of app/retcodes.py against the statements that the handlers rely on.
use mt5_gateway.Prelude.{ℕ, ◌≡◌, ◌≢◌, ◌↔◌, refl, ◌⊎◌, true, arith, All, is_some, not, ◌&&◌, eq_iff}
use mt5_gateway.Json.{say}
use mt5_gateway.Retcodes.{
  Table, RetcodeClass, success, retryable, ambiguous, permanent, is_success, is_retryable,
  success_codes, retryable_codes, ambiguous_codes, permanent_codes, name_in, classify_retcode,
  success_state,
}

abbrev Listed : RetcodeClass → Table → Type 0
Listed c t = All (λ e. classify_retcode e.0 ≡ record { name = say e.1; classification = c }) t

-- Each code of each table gets the name and the class of its own table: no table hides an entry
-- of a later one.
classify_retcode_tables :
    Listed success success_codes
    × Listed retryable retryable_codes
    × Listed ambiguous ambiguous_codes
    × Listed permanent permanent_codes
unfolding classify_retcode name_in
classify_retcode_tables = (
  (refl, (refl, (refl, tt))),
  (refl, (refl, (refl, (refl, tt)))),
  (refl, (refl, tt)),
  (
    refl,
    (
      refl,
      (
        refl,
        (
          refl,
          (
            refl,
            (
              refl,
              (
                refl,
                (
                  refl,
                  (
                    refl,
                    (
                      refl,
                      (
                        refl,
                        (
                          refl,
                          (
                            refl,
                            (
                              refl,
                              (
                                refl,
                                (
                                  refl,
                                  (
                                    refl,
                                    (
                                      refl,
                                      (refl, (refl, (refl, (refl, (refl, (refl, (refl, tt))))))),
                                    ),
                                  ),
                                ),
                              ),
                            ),
                          ),
                        ),
                      ),
                    ),
                  ),
                ),
              ),
            ),
          ),
        ),
      ),
    ),
  ),
)

is_success-name_in : (n : ℕ) → is_success (classify_retcode n) ≡ is_some (name_in n success_codes)
unfolding is_success classify_retcode
is_success-name_in n = ground arith

-- A code counts as a success exactly if it is 10008, 10009 or 10010, and these are exactly the
-- codes that the success response gives a state other than "unknown".
is_success_iff :
    (n : ℕ)
    → ((is_success (classify_retcode n) ≡ true) ↔ ((n ≡ 10008) ⊎ (n ≡ 10009) ⊎ (n ≡ 10010)))
      × ((is_success (classify_retcode n) ≡ true) ↔ (success_state n ≢ "unknown"))
unfolding name_in success_state
is_success_iff n = rw (is_success-name_in n) (
  (ground arith, ground arith),
  (
    λ h e. ground (
      arith,
      eq_iff "placed" "unknown",
      eq_iff "executed" "unknown",
      eq_iff "partially_executed" "unknown",
    ),
    λ h. ground arith,
  ),
)

is_retryable-name_in :
    (n : ℕ)
    → is_retryable (classify_retcode n)
      ≡ (not (is_some (name_in n success_codes)) && is_some (name_in n retryable_codes))
unfolding is_retryable classify_retcode
is_retryable-name_in n = ground arith

-- A code is called retryable only for a requote, a changed or missing price, or a throttled
-- request: never for a success, a timeout, a lost connection or a code that no table lists.
is_retryable_iff :
    (n : ℕ)
    → (is_retryable (classify_retcode n) ≡ true)
      ↔ ((n ≡ 10004) ⊎ (n ≡ 10020) ⊎ (n ≡ 10021) ⊎ (n ≡ 10024))
unfolding name_in
is_retryable_iff n = rw (is_retryable-name_in n) (ground arith, ground arith)
