-- ===== src/Ssh/ConPtyTests.antt =====
-- A pseudoconsole whose process cannot be started.
use tswipoexp.Prelude.{◌≡◌, refl, [], ◌∷◌, codes}
use tswipoexp.Program.{works, fails, Machine}
use tswipoexp.Ssh.ConPty.{Handles, start_con_pty, close_con_pty}
use tswipoexp.Ssh.ConPty.Leaks.{all_closed, own, Leaves, start_con_pty-Leaves}

abbrev unlucky : Machine Handles
unlucky = record {
  state = all_closed;
  fates = works ∷ works ∷ works ∷ works ∷ works ∷ works ∷ works ∷ fails [] ∷ [];
  past = [];
}

start_con_pty-Leaves_example :
    Leaves own all_closed
      (start_con_pty (λ s. s) (codes "C:\\") [] unlucky).0
      (start_con_pty (λ s. s) (codes "C:\\") [] unlucky).1.state
    × ((start_con_pty (λ s. s) (codes "C:\\") [] unlucky).1.state ≡ own
        → (close_con_pty (start_con_pty (λ s. s) (codes "C:\\") [] unlucky).1).1.state ≡ all_closed)
start_con_pty-Leaves_example = start_con_pty-Leaves (λ s. s) (codes "C:\\") [] unlucky refl
