-- ===== src/External.antt =====
-- What leaves the repository (graph_core/external_api.py): the tables of owner types and method
-- names, and the classification of a call. `None` and '' are `none`.
pub mod Precedence
use graph_ingest_test.Prelude.{
  List, [], ◌∷◌, ◌++◌, Option, none, some, Bool, true, false, ◌||◌, if◌then◌else◌, any_of, map,
  Text, codes, text_eq, lower, rsplit_last, is_empty, has_text, find,
}
use graph_ingest_test.Catalog.{Role, Entry, Hit, Catalogue, classify_taint}
use graph_ingest_test.Catalog.Role.{source, sink, sanitizer}

pub data Kind : Type 0 where
  db_acquire db_execute db_release db_other reflection other : Kind
  taint_source taint_sink taint_sanitizer exec file_write deserialize response : Kind

-- DB_TYPES: JDBC, JPA and Hibernate, Spring, MyBatis.
abbrev pub db_types : List Text
db_types =
    codes "java.sql.Connection"
    ∷ codes "java.sql.Statement"
    ∷ codes "java.sql.PreparedStatement"
    ∷ codes "java.sql.CallableStatement"
    ∷ codes "java.sql.ResultSet"
    ∷ codes "java.sql.DataSource"
    ∷ codes "javax.sql.DataSource"
    ∷ codes "javax.sql.PooledConnection"
    ∷ codes "java.sql.DriverManager"
    ∷ codes "javax.persistence.EntityManager"
    ∷ codes "jakarta.persistence.EntityManager"
    ∷ codes "javax.persistence.EntityManagerFactory"
    ∷ codes "jakarta.persistence.EntityManagerFactory"
    ∷ codes "javax.persistence.Query"
    ∷ codes "jakarta.persistence.Query"
    ∷ codes "javax.persistence.TypedQuery"
    ∷ codes "jakarta.persistence.TypedQuery"
    ∷ codes "org.hibernate.Session"
    ∷ codes "org.hibernate.SessionFactory"
    ∷ codes "org.hibernate.Transaction"
    ∷ codes "org.springframework.jdbc.core.JdbcTemplate"
    ∷ codes "org.springframework.jdbc.core.namedparam.NamedParameterJdbcTemplate"
    ∷ codes "org.springframework.transaction.support.TransactionTemplate"
    ∷ codes "org.apache.ibatis.session.SqlSession"
    ∷ codes "org.apache.ibatis.session.SqlSessionFactory"
    ∷ []

abbrev pub db_simple_names : List Text
db_simple_names = map (rsplit_last b'.') db_types

abbrev pub connection_types : List Text
connection_types =
    codes "java.sql.Connection"
    ∷ codes "javax.sql.PooledConnection"
    ∷ codes "org.hibernate.Session"
    ∷ codes "javax.persistence.EntityManager"
    ∷ codes "jakarta.persistence.EntityManager"
    ∷ codes "org.apache.ibatis.session.SqlSession"
    ∷ []

abbrev pub connection_simple_names : List Text
connection_simple_names = map (rsplit_last b'.') connection_types

abbrev pub acquire_methods : List Text
acquire_methods =
    codes "getconnection"
    ∷ codes "createstatement"
    ∷ codes "preparestatement"
    ∷ codes "preparecall"
    ∷ codes "getsession"
    ∷ codes "opensession"
    ∷ codes "createentitymanager"
    ∷ codes "opensqlsession"
    ∷ codes "getcurrentsession"
    ∷ []

abbrev pub execute_methods : List Text
execute_methods =
    codes "executequery"
    ∷ codes "executeupdate"
    ∷ codes "execute"
    ∷ codes "executebatch"
    ∷ codes "executelargeupdate"
    ∷ codes "query"
    ∷ codes "queryforobject"
    ∷ codes "queryforlist"
    ∷ codes "update"
    ∷ codes "createquery"
    ∷ codes "createnativequery"
    ∷ codes "getresultlist"
    ∷ codes "getsingleresult"
    ∷ codes "selectone"
    ∷ codes "selectlist"
    ∷ codes "insert"
    ∷ codes "delete"
    ∷ codes "persist"
    ∷ codes "merge"
    ∷ codes "remove"
    ∷ codes "save"
    ∷ codes "find"
    ∷ []

abbrev pub release_methods : List Text
release_methods =
    codes "close"
    ∷ codes "commit"
    ∷ codes "rollback"
    ∷ codes "setautocommit"
    ∷ codes "releasesavepoint"
    ∷ []

abbrev pub reflect_types : List Text
reflect_types =
    codes "java.lang.reflect.Method"
    ∷ codes "java.lang.reflect.Constructor"
    ∷ codes "java.lang.reflect.Field"
    ∷ []

-- The methods of `java.lang.Class` and of `java.lang.ClassLoader` that reach code or members.
abbrev pub class_methods : List Text
class_methods =
    codes "forname"
    ∷ codes "newinstance"
    ∷ codes "getmethod"
    ∷ codes "getmethods"
    ∷ codes "getdeclaredmethod"
    ∷ codes "getdeclaredmethods"
    ∷ codes "getconstructor"
    ∷ codes "getconstructors"
    ∷ codes "getdeclaredconstructor"
    ∷ codes "getdeclaredconstructors"
    ∷ codes "getfield"
    ∷ codes "getfields"
    ∷ codes "getdeclaredfield"
    ∷ codes "getdeclaredfields"
    ∷ []

abbrev pub class_loader_methods : List Text
class_loader_methods = codes "loadclass" ∷ []

abbrev pub reflect_methods_by_type : List (Text × List Text)
reflect_methods_by_type =
    (codes "java.lang.Class", class_methods)
    ∷ (codes "java.lang.ClassLoader", class_loader_methods)
    ∷ []

abbrev pub or_no_methods : Option (List Text) → List Text
or_no_methods none = []
or_no_methods (some ms) = ms

-- `_classify_reflection`: only a fully qualified owner counts.
unfoldable pub classify_reflection : Text → Text → Option Kind
unfolding find
classify_reflection owner method =
    if has_text owner reflect_types
    then some reflection
    else if has_text (lower method) (or_no_methods (find owner reflect_methods_by_type))
    then some reflection
    else none

abbrev pub category_to_kind : List (Text × Kind)
category_to_kind =
    (codes "CWE-78/command-injection", exec)
    ∷ (codes "CWE-94/code-injection", exec)
    ∷ (codes "CWE-22/path-traversal", file_write)
    ∷ (codes "CWE-502/unsafe-deserialization", deserialize)
    ∷ (codes "CWE-79/xss", response)
    ∷ (codes "CWE-113/response-splitting", response)
    ∷ (codes "CWE-89/sql-injection", db_execute)
    ∷ (codes "CWE-943/nosql-injection", db_execute)
    ∷ []

-- `.get(category, TAINT_SINK)`
abbrev pub or_taint_sink : Option Kind → Kind
or_taint_sink none = taint_sink
or_taint_sink (some k) = k

unfoldable pub kind_of_entry : Entry → Kind
unfolding find
kind_of_entry e = elim e.role [
  | source ↦ taint_source
  | sink ↦ or_taint_sink (find e.category category_to_kind)
  | sanitizer ↦ taint_sanitizer
]

abbrev pub kind_of_hit : List Text → Option Hit → Option Kind
kind_of_hit enabled none = none
kind_of_hit enabled (some hit) =
    if has_text hit.entry.category enabled then some (kind_of_entry hit.entry) else none

-- `_classify_catalogued`, under the categories that are enabled.
unfoldable pub classify_catalogued : Catalogue → List Text → Text → Text → Option Kind
classify_catalogued c [] owner method = none
classify_catalogued c (e ∷ es) owner method = kind_of_hit (e ∷ es) (classify_taint c owner method)

-- `_is_db_type` and `_is_connection_type`
unfoldable pub is_db_type : Text → Bool
is_db_type t = has_text t db_types || has_text (rsplit_last b'.' t) db_simple_names

unfoldable pub is_connection_type : Text → Bool
is_connection_type t =
    has_text t connection_types || has_text (rsplit_last b'.' t) connection_simple_names

abbrev pub or_kind : Option Kind → Option Kind → Option Kind
or_kind none k = k
or_kind (some j) k = some j

-- A method on a database type.
unfoldable pub classify_db : Option Kind → Text → Option Kind
classify_db catalogued name =
    if has_text name acquire_methods
    then some db_acquire
    else if has_text name release_methods
    then some db_release
    else if has_text name execute_methods
    then some db_execute
    else or_kind catalogued (some db_other)

unfoldable pub classify_call : Catalogue → List Text → Text → Text → Text → Option Kind
classify_call c enabled owner method return_type =
    if is_connection_type return_type
    then some db_acquire
    else or_kind (classify_reflection owner method) (
        if is_db_type owner
        then classify_db (classify_catalogued c enabled owner method) (lower method)
        else classify_catalogued c enabled owner method)

unfoldable pub classify_external : Catalogue → List Text → Bool → Text → Text → Text → Option Kind
classify_external c enabled include_other owner method return_type =
    or_kind (classify_call c enabled owner method return_type)
      (if include_other then some other else none)

unfoldable pub external_key : Text → Text → Text
external_key owner method = owner ++ b'#' ∷ method

unfoldable pub external_display : Text → Text → Text
external_display owner method = rsplit_last b'.' owner ++ b'.' ∷ method
