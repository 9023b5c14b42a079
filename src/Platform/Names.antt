-- ===== src/Platform/Names.antt =====
-- The normalisation `value.trim().replace(/ /g, '_')` followed by a case mapping.
use nestjs_microservice_boil.Base.{Text, trim, underscores, ◌≡◌, ap}
use mathlib.Core.Path.{◌≡⟨◌⟩◌, ◌∎}
use nestjs_microservice_boil.Platform.{CaseLaws}
use nestjs_microservice_boil.Base.Trimming.{trim-underscores-trim, underscores-underscores}

module _ {convert : Text → Text} (laws : CaseLaws convert) where
  -- Normalising a name a second time changes nothing.
  pub normalize_idempotent :
      (s : Text)
      → convert (underscores (trim (convert (underscores (trim s)))))
        ≡ convert (underscores (trim s))
  normalize_idempotent s =
      let u = underscores (trim s) in
      convert (underscores (trim (convert u)))
      ≡⟨ ap (λ t. convert (underscores t)) (laws.trim-convert u) ⟩
        convert (underscores (convert (trim u)))
      ≡⟨ ap (λ t. convert (underscores (convert t))) (trim-underscores-trim s) ⟩
        convert (underscores (convert u))
      ≡⟨ ap convert (laws.underscores-convert u) ⟩ convert (convert (underscores u))
      ≡⟨ laws.convert-convert (underscores u) ⟩ convert (underscores u)
      ≡⟨ ap convert (underscores-underscores (trim s)) ⟩ convert u ∎
