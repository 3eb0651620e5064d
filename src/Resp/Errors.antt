-- ===== src/Resp/Errors.antt =====
-- redis/_parsers/base.py: `BaseParser.parse_error`, from the text of an error reply to the class of the
-- exception and its message. (What the constructors of `AskError` and `MovedError` read out of the
-- message is in `Cluster`.) The classes are those of redis/exceptions.py that a reply can give.
use redis_py.Common.{
  ◌+◌, String, Bool, true, false, Option, none, some, List, [], ◌∷◌, if◌then◌else◌, length, drop,
}
use Prim.Native.Char.{code}
use redis_py.Common.Equality.{◌==◌, ℕ_Eq, List_Eq}
use redis_py.Resp.Decimal.{Bytes}

pub data ErrorClass : Type 0 where
  response connection authentication auth_wrong_number_of_args module_error out_of_memory exec_abort
        busy_loading no_script read_only no_permission ask try_again moved cluster_down cross_slot
        master_down :
      ErrorClass

-- `issubclass(c, ConnectionError)`
abbrev pub is_connection_error : ErrorClass → Bool
is_connection_error connection = true
is_connection_error authentication = true
is_connection_error busy_loading = true
is_connection_error c = false

-- The code points of a text.
abbrev pub codes : String → Bytes
codes String.[] = []
codes (String.◌∷◌ c s) = code c ∷ codes s

-- `response.split(" ")[0]`
abbrev pub first_word : Bytes → Bytes
first_word [] = []
first_word (c ∷ cs) = if c == b' ' then [] else c ∷ first_word cs

-- a `dict.get` in a literal dictionary
abbrev pub find_class : Bytes → List (String × ErrorClass) → Option ErrorClass
find_class key [] = none
find_class key ((k, c) ∷ table) = if codes k == key then some c else find_class key table

-- the messages under the code `ERR`
abbrev pub err_messages : List (String × ErrorClass)
err_messages =
    ("max number of clients reached", connection)
    ∷ ("invalid password", authentication)
    ∷ ("wrong number of arguments for 'auth' command", auth_wrong_number_of_args)
    ∷ ("wrong number of arguments for 'AUTH' command", auth_wrong_number_of_args)
    ∷ ("Error loading the extension. Please check the server logs.", module_error)
    ∷ (
      "Error unloading module: the module exports one or more module-side data types, can't unload",
      module_error,
    )
    ∷ ("Error unloading module: no such module with that name", module_error)
    ∷ ("Error unloading module: operation not possible.", module_error)
    ∷ (
      "AUTH <password> called without any password configured for the default user. Are you sure your configuration is correct?",
      authentication,
    )
    ∷ ("Client sent AUTH, but no password is set", authentication)
    ∷ []

-- the other codes
abbrev pub code_classes : List (String × ErrorClass)
code_classes =
    ("OOM", out_of_memory)
    ∷ ("WRONGPASS", authentication)
    ∷ ("EXECABORT", exec_abort)
    ∷ ("LOADING", busy_loading)
    ∷ ("NOSCRIPT", no_script)
    ∷ ("READONLY", read_only)
    ∷ ("NOAUTH", authentication)
    ∷ ("NOPERM", no_permission)
    ∷ ("ASK", ask)
    ∷ ("TRYAGAIN", try_again)
    ∷ ("MOVED", moved)
    ∷ ("CLUSTERDOWN", cluster_down)
    ∷ ("CROSSSLOT", cross_slot)
    ∷ ("MASTERDOWN", master_down)
    ∷ []

abbrev or_response : Option ErrorClass → ErrorClass
or_response none = response
or_response (some c) = c

-- The class and the message: a known code is cut off the message, with the blank behind it.
unfoldable pub parse_error : Bytes → ErrorClass × Bytes
parse_error text =
    let word = first_word text in
    let message = drop (length word + 1) text in
    if word == codes "ERR"
    then (or_response (find_class message err_messages), message)
    else elim (find_class word code_classes) [ none ↦ (response, text) | some c ↦ (c, message) ]
