-- ===== src/Address/Laws.antt =====
-- Laws of the addressing rules of include/ebus/address.hpp, checked over all bytes.
use ebus.Base.{
  Bool, holds_below, holds_below_at, arith, if◌then◌else◌, not, refl, suc, true, zero, ℕ, ◌&&◌, ◌+◌,
  ◌<◌, ◌==◌, ◌||◌, ◌≡◌,
}
use ebus.Address.{is_master, is_slave, master_of, slave_of}

count_below : ℕ → (ℕ → Bool) → ℕ
count_below zero p = 0
count_below (suc n) p = (if p n then 1 else 0) + count_below n p

-- There are 25 master addresses and 228 slave addresses among the 256 bytes.
is_master_counts : (count_below 256 is_master ≡ 25) × (count_below 256 is_slave ≡ 228)
unfolding count_below is_master is_slave
is_master_counts = (refl, refl)

pair_table :
    holds_below 256
      (λ b. not (is_master b) || (is_slave (slave_of b) && master_of (slave_of b) == b))
    ≡ true
unfolding holds_below is_master is_slave slave_of master_of
pair_table = refl

-- Every master address has a slave address of its own, from which the master is found again.
pub master_of-slave_of :
    (b : ℕ)
    → b < 256
    → is_master b ≡ true
    → (is_slave (slave_of b) ≡ true) × (master_of (slave_of b) ≡ b)
master_of-slave_of b h m = ground (arith, holds_below_at 256 _ b pair_table h)
