-- ===== src/Browser/Dom.antt =====
-- src/platform/browser/BrowserAutomation.cpp, getDom: the script that outlines a page.
use win_bot.Base.{Text, text, ◌++◌, Bool, ToolResult, ℤ}
use win_bot.Json.{JsonApi}
use win_bot.Browser.{BrowserAutomation, Socket, Awaited}
use win_bot.Browser.Commands.{eval_js}

unfoldable pub dom_js : Text
dom_js =
    text "\n"
    ++ text "        (() => {\n"
    ++ text "            function extract(el, depth) {\n"
    ++ text "                if (depth > 8) return '';\n"
    ++ text "                const tag = el.tagName?.toLowerCase() || '';\n"
    ++ text "                if"
    ++ text " (['script','style','head','noscript','meta','link','svg'].includes(ta"
    ++ text "g)) return '';\n"
    ++ text "                \n"
    ++ text "                // Get direct text content only (not children's text)\n"
    ++ text "                let text = '';\n"
    ++ text "                if (el.childNodes) {\n"
    ++ text "                    text = Array.from(el.childNodes)\n"
    ++ text "                        .filter(n => n.nodeType === 3)\n"
    ++ text "                        .map(n => n.textContent)\n"
    ++ text "                        .join(' ').trim().replace(/\\s+/g, ' ');\n"
    ++ text "                }\n"
    ++ text "                if (text.length > 80) text = text.substring(0, 80) +"
    ++ text " '...';\n"
    ++ text "                \n"
    ++ text "                const role = el.getAttribute?.('role') || '';\n"
    ++ text "                const id   = el.id ? '#' + el.id : '';\n"
    ++ text "                const clsRaw = el.className && typeof el.className"
    ++ text " === 'string' ? el.className : '';\n"
    ++ text "                const cls  = clsRaw ? '.' +"
    ++ text " clsRaw.split(/\\s+/).filter(c=>c).join('.') : '';\n"
    ++ text "                \n"
    ++ text "                const ariaLabel = el.getAttribute?.('aria-label') ||"
    ++ text " '';\n"
    ++ text "                const href = el.getAttribute?.('href') || '';\n"
    ++ text "                \n"
    ++ text "                let attrs = '';\n"
    ++ text "                if (role) attrs += ` role=${role}`;\n"
    ++ text "                if (ariaLabel) attrs += ` aria-label=\"${ariaLabel}\"`;\n"
    ++ text "                if (href) attrs += ` href=\"${href}\"`;\n"
    ++ text "\n"
    ++ text "                let line = '';\n"
    ++ text "                if (id || cls || attrs || text) {\n"
    ++ text "                    line = `[${tag}${id}${cls}${attrs}] ${text}\\n`;\n"
    ++ text "                }\n"
    ++ text "\n"
    ++ text "                let children = '';\n"
    ++ text "                for (const child of el.children || []) {\n"
    ++ text "                    children += extract(child, depth+1);\n"
    ++ text "                }\n"
    ++ text "                return line + children;\n"
    ++ text "            }\n"
    ++ text "            return extract(document.body, 0).substring(0, 16384);\n"
    ++ text "        })()\n"
    ++ text "    "

module _ {J W : Type 0} (api : JsonApi J) (equals_int : J → ℤ → Bool) (socket : Socket W) where
  -- getDom
  unfoldable pub get_dom : BrowserAutomation W → Awaited W ToolResult
  unfolding eval_js dom_js
  get_dom = eval_js api equals_int socket dom_js
