-- ===== src/Tests/ClientSession.antt =====
-- A session: "/d" is listed, then "f" is created in it, and it is listed again.
use la_liga_de_la_justicia.Base.{ℕ, none, List, [], ◌∷◌, if◌then◌else◌}
use la_liga_de_la_justicia.Server.Strings.{same_path}
use la_liga_de_la_justicia.Client
use la_liga_de_la_justicia.Client.Listing.{missing, directory}
use la_liga_de_la_justicia.Client.Session.{Listing, Session}
use la_liga_de_la_justicia.Tests.CacheModel.{Table, table}

abbrev d : List ℕ
d = 47 ∷ 100 ∷ []

-- The server lists `text` for "/d", and has nothing else.
abbrev lists_d : (text : List ℕ) → Listing
lists_d text p = if same_path d p then directory text else missing

abbrev nothing : Table (List ℕ)
nothing _ = none

abbrev once_listed : Table (List ℕ)
once_listed = (table).memcached_set nothing (100 ∷ 105 ∷ 114 ∷ 45 ∷ d) (46 ∷ [])

abbrev forgotten_again : Table (List ℕ)
forgotten_again = (table).memcached_delete once_listed (100 ∷ 105 ∷ 114 ∷ 45 ∷ d)
