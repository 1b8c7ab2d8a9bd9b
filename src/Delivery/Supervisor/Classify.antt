-- ===== src/Delivery/Supervisor/Classify.antt =====
-- boatstack/internal/softwaredelivery/supervisor/classify.go. The regular expressions are Go's, and
-- the model holds their texts.
use text.Mathlib.Text.{find?}
use boatstack.Base.{
  is_some, String, Bool, not, ◌&&◌, ◌||◌, Option, none, some, List, [], ◌∷◌, any_of, if◌then◌else◌,
}
use boatstack.Delivery.Ports.{Library}
use boatstack.Delivery.Model.Facet.{join}
use boatstack.Delivery.Supervisor.IntentClass
use boatstack.Delivery.Supervisor.Guard.{CommandIntent}

-- An operation and its pattern.
abbrev pub CommandPattern : Type 0
CommandPattern = String × String

-- destructiveCommandPatterns
abbrev pub destructive_command_patterns : List CommandPattern
destructive_command_patterns =
    ("delegation.authorize", "(?i)\\bboatstack(?:-helper)?\\s+flow\\s+authorize\\b")
    ∷ (
      "database.reset",
      "(?i)\\b(?:supabase\\s+db\\s+reset|prisma\\s+migrate\\s+reset|rails\\s+db:(?:drop|reset)|django-admin\\s+flush|manage\\.py\\s+flush|alembic\\s+downgrade\\s+base|pg_restore\\b[^\\n]*\\s--clean\\b)",
    )
    ∷ ("external-resource.delete", "(?i)\\bsupabase[\\s\"',()]+branches?[\\s\"',()]+delete\\b")
    ∷ (
      "external-lifecycle.weaken",
      "(?i)\\bsupabase[\\s\"',()]+branches?[\\s\"',()]+update\\b[^\\n;&|]*(?:--persistent(?:=|[\\s\"',()]+)false\\b|--no-persistent\\b)",
    )
    ∷ (
      "external-service.expose",
      "(?i)(?:\\bgcloud\\s+run\\s+(?:deploy|services\\s+update)\\b[^\\n;&|]*--allow-unauthenticated\\b|\\bgcloud\\s+(?:projects|run\\s+services)\\s+(?:add-iam-policy-binding|set-iam-policy)\\b[^\\n;&|]*(?:allusers|roles/run\\.invoker)|\\bkubectl\\s+(?:create|expose|patch|apply)\\b[^\\n;&|]*(?:type[=:](?:loadbalancer|nodeport)|0\\.0\\.0\\.0/0)|\\baws\\s+[^\\n;&|]*(?:authorize-security-group-ingress|put-public-access-block)\\b[^\\n;&|]*(?:0\\.0\\.0\\.0/0|block-public-acls\\s+false))",
    )
    ∷ (
      "filesystem.recursive-delete",
      "(?i)\\b(?:rm\\s+-[^\\n;]*(?:r[^\\n;]*f|f[^\\n;]*r)|remove-item\\s+[^\\n;]*-recurse[^\\n;]*-force)\\s+(?:[\"']?(?:/|~|\\$home|\\.|\\.\\.)[\"']?\\s*(?:;|&&|\\|\\||$)|[^\\s;]*\\*[^\\s;]*)",
    )
    ∷ ("git.reset-hard", "(?i)\\bgit\\s+reset\\s+[^\\n;&|]*--hard\\b")
    ∷ ("git.clean-force", "(?i)\\bgit\\s+clean\\s+-[^\\s]*(?:f[^\\s]*d|d[^\\s]*f|x)[^\\s]*")
    ∷ ("git.force-push", "(?i)\\bgit\\s+push\\b[^\\n;&|]*(?:--force(?:-with-lease)?|-f\\b)")
    ∷ (
      "infrastructure.destroy",
      "(?i)\\b(?:terraform|tofu|pulumi)\\s+destroy\\b|\\bkubectl\\s+delete\\s+(?:namespace|cluster|persistentvolume|persistentvolumeclaim|pvc)\\b|\\bdocker\\s+volume\\s+(?:rm|prune)\\b|\\bgcloud\\s+(?:projects|sql\\s+instances|compute\\s+(?:instances|disks))\\s+delete\\b|\\baws\\s+[^\\n;&|]*(?:delete-cluster|delete-db-instance|terminate-instances|delete-volume|delete-bucket)\\b",
    )
    ∷ (
      "recovery.destroy",
      "(?i)\\b(?:delete|remove|disable)\\b[^\\n;]*(?:backup|snapshot|point-in-time|pitr|recovery)\\b",
    )
    ∷ ("publication.merge", "(?i)\\bgh\\s+pr\\s+merge\\b")
    ∷ (
      "external-tool.destructive",
      "(?i)\\bmcp[_-]{2}[^\\s]*(?:delete|drop|destroy|reset|execute[_-]?sql)[^\\s]*\\b",
    )
    ∷ []

-- managedCommandPatterns
abbrev pub managed_command_patterns : List CommandPattern
managed_command_patterns =
    ("workspace.remove", "(?i)\\bgit\\s+worktree\\s+remove\\b")
    ∷ ("publication.create", "(?i)\\bgh\\s+pr\\s+create\\b")
    ∷ ("publication.edit", "(?i)\\bgh\\s+pr\\s+edit\\b")
    ∷ ("publication.ready", "(?i)\\bgh\\s+pr\\s+ready\\b")
    ∷ (
      "publication.api-write",
      "(?i)\\bgh\\s+api\\b[^\\n;&|]*(?:/pulls\\b|/pull-requests\\b)[^\\n;&|]*(?:\\s-X\\s*(?:POST|PATCH)|--request\\s+(?:POST|PATCH))",
    )
    ∷ ("publication.push", "(?i)\\bgit\\s+push\\b")
    ∷ []

-- liveSQLClient
abbrev live_sqlclient : String
live_sqlclient =
    "(?i)(?:^|[;&|]\\s*|\\b(?:sudo|env)\\s+)(?:psql|mysql|mariadb|mongo|mongosh|cockroach|sqlcmd|usql|clickhouse-client)\\b"

-- destructiveSQL
abbrev destructive_sql : String
destructive_sql =
    "(?i)\\b(?:drop\\s+(?:database|schema|table)|alter\\s+table\\b[^;\\n]*\\bdrop\\s+(?:column|constraint)|truncate(?:\\s+table)?|delete\\s+from\\b)"

-- sqlFileRun
abbrev sql_file_run : String
sql_file_run =
    "(?i)\\b(?:psql|mysql|mariadb|cockroach|sqlcmd|usql|clickhouse-client)\\b[^\\n;&|]*(?:\\s-f\\s|\\s--file(?:=|\\s)|\\s<\\s*)"

-- managedState
abbrev managed_state : String
managed_state =
    "(?i)(?:^|[\\s\"'=])(?:\\.git[/\\\\](?:worktrees[/\\\\][^/\\\\]+[/\\\\])?boatstack(?:[/\\\\]|$)|\\.boatstack[/\\\\](?:approvals|evidence|plans|publication)(?:[/\\\\]|$)|\\.boatstack[/\\\\]project\\.json\\b)"

-- mutationSyntax
abbrev mutation_syntax : String
mutation_syntax =
    "(?i)(?:^|[;&|]\\s*)(?:rm|mv|cp|touch|mkdir|tee|truncate|install|remove-item|move-item|copy-item|new-item|set-content|add-content)\\b|\\bsed\\s+-[^\\s]*i\\b|(?:^|[^<])>{1,2}[^>]"

-- dataOnlyPrefix
abbrev data_only_prefix : String
data_only_prefix =
    "(?i)^(?:rg|grep|cat|head|tail|less|wc|awk|sort|uniq|cut|tr|jq|column|nl|comm|rev|fold|git\\s+(?:add|commit|diff|status|show|log|grep|restore\\s+--staged))\\b"

-- strings.Contains
abbrev includes : String → String → Bool
includes text part = is_some (find? text part)

-- the parts of a command that a data-only one has none of
abbrev shell_syntax : List String
shell_syntax = ";" ∷ "|" ∷ "<" ∷ ">" ∷ "&&" ∷ "$(" ∷ "`" ∷ []

-- the operation of the first pattern that matches
abbrev pub first_match : (String → Bool) → List CommandPattern → Option String
first_match matches [] = none
first_match matches ((operation, pattern) ∷ patterns) =
    let rest = first_match matches patterns in if matches pattern then some operation else rest

abbrev intent_of : Library → String → String → String → CommandIntent
intent_of library command class operation = record {
  class = class;
  operation = operation;
  fingerprint = library.sha256_hex command;
  transition = "";
}

-- the end of ClassifyCommandIntent, on the first managed pattern that matches
abbrev classify_managed : (String → String → CommandIntent) → Option String → CommandIntent
classify_managed intent none = intent IntentClass.ordinary "repository.command"
classify_managed intent (some operation) = intent IntentClass.managed_bypass operation

-- what follows the loop over the destructive patterns
abbrev classify_rest :
    (String → Bool) → (String → String → CommandIntent) → Option String → CommandIntent
classify_rest matches intent (some operation) = intent IntentClass.destructive operation
classify_rest matches intent none =
    if (matches live_sqlclient && matches destructive_sql) || matches sql_file_run
    then intent IntentClass.destructive "database.destruction"
    else if matches managed_state && matches mutation_syntax
    then intent IntentClass.destructive "managed-state.tamper"
    else classify_managed intent (first_match matches managed_command_patterns)

-- whether a command only reads data, with nothing of a shell
abbrev pub is_data_only : Library → String → Bool
is_data_only library command =
    let normalized = join " " (library.fields command) in
    library.match_string data_only_prefix normalized
    && not (any_of (includes normalized) shell_syntax)

-- ClassifyCommandIntent
unfoldable pub classify_command_intent : Library → String → CommandIntent
classify_command_intent library command =
    let normalized = join " " (library.fields command) in
    let matches : String → Bool = λ pattern. library.match_string pattern normalized in
    let intent = intent_of library command in
    if is_data_only library command
    then intent IntentClass.ordinary "repository.command"
    else classify_rest matches intent (first_match matches destructive_command_patterns)
