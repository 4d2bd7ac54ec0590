-- ===== src/Verify/Report/Agreement.antt =====
-- tinyFaaS-ext/cmd/verify-wiring/main.go: what a report without problems says.
use yuliya_bachelorarbeit.Base.{ok, Bool, true, String, List, ◌≡◌}
use yuliya_bachelorarbeit.Node.{Node}
use yuliya_bachelorarbeit.Relay.{Bricklets}
use yuliya_bachelorarbeit.Verify.{Watts, Bench, Verified, read_all}
use yuliya_bachelorarbeit.Verify.Report.Backed.{Reaches, switched_on, Answers, Rises, Backed}

module _ {W D : Type 0} (b : Bricklets W) (e : Bench W) (f : Watts D) where
  -- A worker whose relay, address and bricklet were found to agree, in a check that began in `w`.
  pub record Agrees (energy_checked : Bool) (vcs : List String) (w : W) (n : Node) : Type 0 where
    pub began : W
    pub reached : Reaches b e f w began
    pub on : (switched_on b e f vcs n began).0 ≡ ok tt
    pub address : Answers b e f n (switched_on b e f vcs n began).1
    pub bricklet :
        energy_checked ≡ true
        → Rises b e f vcs (read_all b e f vcs began).0 n (switched_on b e f vcs n began).1

  -- The same for a worker: what its result stands for, and where its check ends.
  pub record Checked (vcs : List String) (w : W) (n : Node) (r : Verified) : Type 0 where
    pub began : W
    pub reached : Reaches b e f w began
    pub powered : r.powered_ok ≡ true → (switched_on b e f vcs n began).0 ≡ ok tt
    pub backed : Backed b e f vcs (read_all b e f vcs began).0 n (switched_on b e f vcs n began).1 r
