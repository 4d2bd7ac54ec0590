-- ===== src/Admin/Arguments.antt =====
-- tinyFaaS-ext/cmd/rproxy/main.go: the arguments of the reverse proxy process.
use yuliya_bachelorarbeit.Base.{
  leb, String, none, some, List, [], ◌∷◌, length, if◌then◌else◌, Result, ok, err,
}
use yuliya_bachelorarbeit.Base.Dict.{Dict, insert}
use yuliya_bachelorarbeit.Base.Decimal.{cut, to_lower}

-- The two messages on the usage, each of which ends the process.
pub data ArgsError : Type 0 where
  too_few no_protocol : ArgsError

-- The loop over the listeners.
unfoldable pub read_listeners : List String → Dict String → Result ArgsError (Dict String)
unfolding cut to_lower insert
read_listeners [] found = ok found
read_listeners (arg ∷ args) found = elim (cut b':' arg) [
  | none ↦ err no_protocol
  | some (prot, listen_addr) ↦
      read_listeners args (insert (to_lower prot) (to_lower listen_addr) found)
]

-- The address of the management endpoint and those of the front ends, from the arguments behind the
-- program's name.
unfoldable pub parse_args : List String → Result ArgsError (String × Dict String)
unfolding read_listeners
parse_args [] = err too_few
parse_args (listen_address ∷ args) =
    if leb (length args) 1
    then err too_few
    else elim (read_listeners args []) [ err e ↦ err e | ok found ↦ ok (listen_address, found) ]
