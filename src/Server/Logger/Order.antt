-- ===== src/Server/Logger/Order.antt =====
-- Logger.hpp: no line is lost, doubled or put before an earlier one.
use socket_message.Prelude.{ℕ, ◌≡◌, List, [], ◌∷◌, ◌++◌, concat}
use socket_message.Server.Logger.{Line, Place, at_wait, writing, returned, Logger, level_name}

-- Outside a batch nothing is left of one.
abbrev pub IsEmptied : Place → List Line → Type 0
IsEmptied at_wait b = b ≡ []
IsEmptied writing b = Unit
IsEmptied returned b = b ≡ []

-- What a line looks like in the file and on the console: the time, two blanks, the level in brackets, two
-- blanks, the arguments and a newline.
unfoldable pub text_of : List ℕ → Line → List ℕ
text_of time line =
    time
    ++ (32 ∷ 32 ∷ 91 ∷ (level_name line.level ++ (93 ∷ 32 ∷ 32 ∷ (concat line.texts ++ 10 ∷ []))))

-- A text that is made of the lines, each with a time.
pub data IsText : List Line → List ℕ → Type 0 where
  no_line : IsText [] []
  then_line :
      (lines : List Line) (out time : List ℕ) (line : Line)
      → IsText lines out
      → IsText (lines ++ line ∷ []) (out ++ text_of time line)

pub record IsOrdered (l : Logger) : Type 0 where
  pub order : l.written ++ (l.batch ++ l.queue) ≡ l.logged
  pub emptied : IsEmptied l.place l.batch
  pub text : IsText l.written l.out
