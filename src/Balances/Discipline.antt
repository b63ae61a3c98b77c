-- ===== src/Balances/Discipline.antt =====
-- runtime/src/balances.rs, `transfer`: how it uses its storage.
use sonic_chain.Base.{refl, Option, none, some, [], inl, inr, false, true}
use sonic_chain.Primitives.{AccountId, Balance}
use sonic_chain.Runtime.Storage.{Codec, decoded}
use sonic_chain.Runtime.Discipline.{IsDisciplined, ChecksFirst}
use sonic_chain.Balances.{transfer, pay, balance_of, checked_sub}
use sonic_chain.Balances.Account.{AccountBalance, account_balance_default}
use sonic_chain.Runtime.Storage.{key_for}
use sonic_chain.Base.{◌∷◌}

module _ (codec : Codec AccountBalance) (origin dest : AccountId) (value : Balance) where
  pay-IsDisciplined :
      (old : AccountBalance) (left : Option Balance)
      → IsDisciplined
          (key_for (balance_of codec) origin ∷ [])
          (pay codec origin dest value old left)
  pay-IsDisciplined old none = tt
  pay-IsDisciplined old (some remaining) =
      (inl (inl refl), ((true, λ t. refl), λ v. (inr (true, λ t. refl), tt)))

  -- The write to the origin follows its read, and every other access may be refused.
  pub transfer-IsDisciplined : IsDisciplined [] (transfer codec origin dest value)
  unfolding transfer
  transfer-IsDisciplined = (
    (false, λ t. refl),
    λ v.
        pay-IsDisciplined (decoded (balance_of codec) v)
          (checked_sub (decoded (balance_of codec) v).free value),
  )

  pay-ChecksFirst :
      (old : AccountBalance) (left : Option Balance)
      → ChecksFirst (pay codec origin dest value old left)
  pay-ChecksFirst old none = tt
  pay-ChecksFirst old (some remaining) = λ v. tt

  -- The funds are checked before anything is written.
  pub transfer-ChecksFirst : ChecksFirst (transfer codec origin dest value)
  unfolding transfer
  transfer-ChecksFirst v =
      pay-ChecksFirst (decoded (balance_of codec) v)
        (checked_sub (decoded (balance_of codec) v).free value)
