-- ===== src/Cpu/Safety/Alu.antt =====
-- The steps that the instructions share keep the machine good.
use xmachine.Base.{ℕ, ◌^◌, ◌<◌, arith}
use xmachine.Base.Bits.{bit_and-le, bit_or-lt, bit_xor-lt}
use xmachine.Cpu.State.{Cpu, Bus, ◌>>=◌, ◌>>◌}
use xmachine.Cpu.Flags.{
  set_zero_flag, set_negative_flag_b, set_negative_flag_w, zero_of_alu, negative_of_alu_b,
  negative_of_alu_w,
}
use xmachine.Cpu.Ops.Alu.{
  set_alu, fetch_src, fetch_dest, alu_from_dest, alu_from_dest_b, alu_from_src, alu_from_src_b,
  store_alu, store_alu_b,
}
use xmachine.Cpu.Safety.Rules.{IsCpu, BusLaws, Keeps, GivesWord, Gives-bind, ◌then◌, Keeps-assign}
use xmachine.Cpu.Safety.Access.{fetch_data-GivesWord, store_data-Keeps, store_data_b-Keeps}

set_zero_flag-IsCpu : (v : ℕ) (c : Cpu) → IsCpu c → IsCpu (set_zero_flag v c)
unfolding set_zero_flag
set_zero_flag-IsCpu v c h = ground (arith, bit_or-lt 16 c.psw 4, bit_xor-lt 16 c.psw 4)

set_negative_flag_b-IsCpu : (v : ℕ) (c : Cpu) → IsCpu c → IsCpu (set_negative_flag_b v c)
unfolding set_negative_flag_b
set_negative_flag_b-IsCpu v c h = ground (arith, bit_or-lt 16 c.psw 8, bit_xor-lt 16 c.psw 8)

set_negative_flag_w-IsCpu : (v : ℕ) (c : Cpu) → IsCpu c → IsCpu (set_negative_flag_w v c)
unfolding set_negative_flag_w
set_negative_flag_w-IsCpu v c h = ground (arith, bit_or-lt 16 c.psw 8, bit_xor-lt 16 c.psw 8)

module _ {S : Type 0} ⦃bus : Bus S⦄ (laws : BusLaws S) where
  pub zero_of_alu-Keeps : Keeps laws zero_of_alu
  unfolding zero_of_alu
  zero_of_alu-Keeps = Keeps-assign laws _ (λ c. set_zero_flag-IsCpu c.alu c)

  pub negative_of_alu_b-Keeps : Keeps laws negative_of_alu_b
  unfolding negative_of_alu_b
  negative_of_alu_b-Keeps = Keeps-assign laws _ (λ c. set_negative_flag_b-IsCpu c.alu c)

  pub negative_of_alu_w-Keeps : Keeps laws negative_of_alu_w
  unfolding negative_of_alu_w
  negative_of_alu_w-Keeps = Keeps-assign laws _ (λ c. set_negative_flag_w-IsCpu c.alu c)

  -- The four ways in which the instructions set the condition codes.
  pub flags_zw-Keeps : Keeps laws (zero_of_alu >> negative_of_alu_w)
  flags_zw-Keeps = ◌then◌ laws zero_of_alu-Keeps negative_of_alu_w-Keeps

  pub flags_zb-Keeps : Keeps laws (zero_of_alu >> negative_of_alu_b)
  flags_zb-Keeps = ◌then◌ laws zero_of_alu-Keeps negative_of_alu_b-Keeps

  pub flags_wz-Keeps : Keeps laws (negative_of_alu_w >> zero_of_alu)
  flags_wz-Keeps = ◌then◌ laws negative_of_alu_w-Keeps zero_of_alu-Keeps

  pub flags_bz-Keeps : Keeps laws (negative_of_alu_b >> zero_of_alu)
  flags_bz-Keeps = ◌then◌ laws negative_of_alu_b-Keeps zero_of_alu-Keeps

  pub set_alu-Keeps : (f : Cpu → ℕ) → ((c : Cpu) → IsCpu c → f c < 2 ^ 16) → Keeps laws (set_alu f)
  unfolding set_alu
  set_alu-Keeps f lt = Keeps-assign laws _ (λ c h. omega (arith, lt c h))

  pub fetch_src-GivesWord : GivesWord laws fetch_src
  unfolding fetch_src
  fetch_src-GivesWord = record {
    run = λ s good. unfold ◌>>=◌ in (fetch_data-GivesWord laws _).run s good;
  }

  pub fetch_dest-GivesWord : GivesWord laws fetch_dest
  unfolding fetch_dest
  fetch_dest-GivesWord = record {
    run = λ s good. unfold ◌>>=◌ in (fetch_data-GivesWord laws _).run s good;
  }

  pub alu_from_dest-Keeps : Keeps laws alu_from_dest
  unfolding alu_from_dest
  alu_from_dest-Keeps = Gives-bind laws fetch_dest-GivesWord (λ v lt. set_alu-Keeps _ (λ c h. lt))

  pub alu_from_src-Keeps : Keeps laws alu_from_src
  unfolding alu_from_src
  alu_from_src-Keeps = Gives-bind laws fetch_src-GivesWord (λ v lt. set_alu-Keeps _ (λ c h. lt))

  pub alu_from_dest_b-Keeps : Keeps laws alu_from_dest_b
  unfolding alu_from_dest_b
  alu_from_dest_b-Keeps =
      Gives-bind laws fetch_dest-GivesWord
        λ v lt. set_alu-Keeps _ (λ c h. omega (arith, bit_and-le v 0o377))

  pub alu_from_src_b-Keeps : Keeps laws alu_from_src_b
  unfolding alu_from_src_b
  alu_from_src_b-Keeps =
      Gives-bind laws fetch_src-GivesWord
        λ v lt. set_alu-Keeps _ (λ c h. omega (arith, bit_and-le v 0o377))

  pub store_alu-Keeps : Keeps laws store_alu
  unfolding store_alu
  store_alu-Keeps = record {
    run = λ s good. unfold ◌>>=◌ in (store_data-Keeps laws _ _ good.0.alu).run s good;
  }

  pub store_alu_b-Keeps : Keeps laws store_alu_b
  unfolding store_alu_b
  store_alu_b-Keeps = record {
    run = λ s good. unfold ◌>>=◌ in (store_data_b-Keeps laws _ _).run s good;
  }
