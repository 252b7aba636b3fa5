-- ===== src/Handlers/Requests/Tests.antt =====
-- Requests to an instance with two databases, and the theorems of Handlers/Requests and
-- Handlers/Sessions at them.
use xtemplate.Prelude.{true, Option, none, List, [], ◌∷◌, ◌++◌, codes, map}
use xtemplate.Prelude.Errors.{Error, external, Result, ok}
use xtemplate.Http.{no_response}
use xtemplate.Db.{Driver, call_exec, call_query_val, call_commit}
use xtemplate.Dot.{Pooled}
use xtemplate.Handlers.{DotResp, Value, x_value, req_value, resp_value, World, Execution}
use xtemplate.Handlers.Databases.{fields}
use xtemplate.Handlers.Sessions.{Session, used}

abbrev store : Driver
store = record {
  begin_tx = λ n. none;
  commit = λ n. none;
  rollback = λ n. none;
  exec = λ n k q. ok k;
  query = λ n k q. Result.err (external 0);
}

-- A template that inserts into the first database, commits, inserts again, and asks the second one.
abbrev sessions : List Session
sessions =
    record {
      name = codes "Users";
      sql = store;
      ops = call_exec (codes "insert") ∷ call_commit ∷ call_exec (codes "insert") ∷ [];
    }
    ∷ record { name = codes "Log"; sql = store; ops = call_query_val (codes "select") ∷ [] }
    ∷ []

abbrev made_resp : DotResp
made_resp = record { header = []; status = 201 }

abbrev left_fields : List Value
left_fields = x_value ∷ req_value ∷ (fields (map used sessions) ++ resp_value made_resp ∷ [])

abbrev page : Option Error → List Value → World → Execution
page e vs w = record { fields = left_fields; world = w; output = codes "created"; error = e }

abbrev arrived : Pooled World
arrived = record {
  world = record { request = []; response = no_response; can_flush = true; closed = [] };
  taken = 0;
}
