-- ===== src/Balances/Account.antt =====
-- runtime/src/balances.rs, `AccountBalance`.
use sonic_chain.Base.{
  ◌<◌, ◌+◌, ◌-◌, ◌≡◌, Bool, arith, leb, if◌then◌else◌, Default, Result, ok, err, String,
}
use sonic_chain.Primitives.{Balance, add_balance, balance_limit}

pub record AccountBalance : Type 0 where
  pub free : Balance
  pub reserved : Balance

instance abbrev pub account_balance_default : Default AccountBalance
account_balance_default = record { default = record { free = 0; reserved = 0 } }

-- `AccountBalance::new`
abbrev pub new : Balance → Balance → AccountBalance
new free reserved = record { free = free; reserved = reserved }

-- `AccountBalance::new_free`, and `From<Balance>`
abbrev pub new_free : Balance → AccountBalance
new_free free = record { free = free; reserved = 0 }

unfoldable pub total : AccountBalance → Balance
total a = add_balance a.free a.reserved

abbrev pub free_of : AccountBalance → Balance
free_of a = a.free

abbrev pub reserved_of : AccountBalance → Balance
reserved_of a = a.reserved

abbrev pub can_spend : AccountBalance → Balance → Bool
can_spend a amount = leb amount a.free

-- The new balance, or the error with which the old one stays.
unfoldable pub reserve : AccountBalance → Balance → Result String AccountBalance
reserve a amount =
    if can_spend a amount
    then ok (record { free = a.free - amount; reserved = add_balance a.reserved amount })
    else err "Not enough funds."

unfoldable pub unreserve : AccountBalance → Balance → Result String AccountBalance
unreserve a amount =
    if leb amount a.reserved
    then ok (record { free = add_balance a.free amount; reserved = a.reserved - amount })
    else err "Not enough reserved."

-- If the free and the reserved funds of an account together are less than 2 ^ 128, an amount that
-- was reserved can be unreserved, which gives back the balance as it was.
pub unreserve-reserve :
    (a a' : AccountBalance) (amount : Balance)
    → a.free + a.reserved < balance_limit
    → reserve a amount ≡ ok a'
    → unreserve a' amount ≡ ok a
unfolding reserve unreserve add_balance
unreserve-reserve a a' amount bounded h = ground arith
