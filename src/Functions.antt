-- ===== src/Functions.antt =====
-- tinyFaaS-ext/pkg/cluster/functions.go: the functions that a woken node must be given.
use yuliya_bachelorarbeit.Base.{ℕ, ℤ, String, List, []}
use yuliya_bachelorarbeit.Base.Dict.{Dict, insert, remove}

-- `Zip` is its bytes.
pub record FunctionDef : Type 0 where
  pub env : String
  pub threads : ℤ
  pub envs : Dict String
  pub zip : List ℕ

pub record FunctionStore : Type 0 where
  pub funcs : Dict FunctionDef

abbrev pub new_function_store : FunctionStore
new_function_store = record { funcs = [] }

unfoldable pub set_function : String → FunctionDef → FunctionStore → FunctionStore
unfolding insert
set_function name def s = record s { funcs = insert name def s.funcs }

unfoldable pub remove_function : String → FunctionStore → FunctionStore
unfolding remove
remove_function name s = record s { funcs = remove name s.funcs }

-- The copy that `All` makes.
unfoldable pub all : FunctionStore → Dict FunctionDef
all s = s.funcs
