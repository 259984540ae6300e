-- ===== src/Tests/Config.antt =====
-- Dictionaries, one with a concurrency that is no number.
use sf_processor.Prelude.{◌≡◌, refl, [], ◌∷◌}
use sf_processor.Prelude.Int.{pos}
use sf_processor.Prelude.Text.{str}
use sf_processor.Prelude.Assoc.{lookup}
use sf_processor.Config.{setting, text_at}
use sf_processor.Config.PolicyConfig.{create_policy_config, interval_of, concurrency_of}

-- The default of five workers is lost.
no_workers :
    (create_policy_config ((str "concurrency", setting (str "five")) ∷ [])).0.concurrency ≡ pos 0
unfolding create_policy_config concurrency_of interval_of text_at lookup
no_workers = refl
