-- ===== src/App/User/Navigation.antt =====
-- Navigation: every page change clears the error.
use skrepka.Base.{none, some, [], ◌∷◌, Text}
use skrepka.App.State.{Model, Step, render, Page, conversations, chat}

abbrev pub clear_error : Model → Model
clear_error m = record m { error = none }

unfoldable pub on_show_conversations : Model → Step
on_show_conversations m =
    (record m { page = conversations; active_peer = none; error = none }, render ∷ [])

-- `ShowSettings`, `ShowAddContact` and `ShowEditProfile`
unfoldable pub show_page : Page → Model → Step
show_page page m = (record m { page = page; error = none }, render ∷ [])

unfoldable pub on_open_chat : Text → Model → Step
on_open_chat peer m = (record m { active_peer = some peer; page = chat; error = none }, render ∷ [])

unfoldable pub on_back : Model → Step
on_back m = (record m { page = conversations; active_peer = none; error = none }, render ∷ [])

unfoldable pub on_compose_changed : Text → Model → Step
on_compose_changed s m = (record m { compose = s }, render ∷ [])
