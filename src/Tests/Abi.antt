-- ===== src/Tests/Abi.antt =====
-- TransportPluginExports.h on concrete calls.
use graftcode_extensions.Base.{
  ℕ, zero, suc, ◌≡◌, refl, false, some, [], ◌∷◌, arith, Bytes, length, ok,
}
use graftcode_extensions.Abi.{send_command}
use graftcode_extensions.Abi.Contract.{granted, Keeps, send_command-Keeps}

abbrev bytes : Bytes
bytes = 7 ∷ 0 ∷ 7 ∷ []

send_command-Keeps_example :
    Keeps
      (some (ok bytes))
      false
      (send_command [] (λ _. false) granted false false (some (ok bytes)))
send_command-Keeps_example =
    send_command-Keeps [] (λ _. false) granted false false (some (ok bytes))

-- A response of so many zeros.
unfoldable zeros : ℕ → Bytes
zeros zero = []
zeros (suc n) = 0 ∷ zeros n

length-zeros : (n : ℕ) → length (zeros n) ≡ n
unfolding zeros
length-zeros zero = refl
length-zeros (suc n) = omega (arith, length-zeros n)
